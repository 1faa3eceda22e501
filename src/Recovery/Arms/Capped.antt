-- ===== src/Recovery/Arms/Capped.antt =====
-- How often the naive arm of internal/recovery/arms.go reaches the gateway for one order.
use rzp_rebound.Prelude.{
  ℕ, suc, ◌^◌, ◌<◌, String, ◌≡◌, ◌⊎◌, inl, inr, refl, ◌∙◌, true, false, ◌&&◌, ◌==◌, if◌then◌else◌,
  Option, none, some, List, [], ◌∷◌, Bool-cases, arith, pos, leb_ℤ, ◌+ℤ◌, wrap64, lookup_or,
}
use rzp_rebound.Time.{Instant}
use rzp_rebound.Policy.{is_notify_action}
use rzp_rebound.OrderStore.{Store, attempts, increment, commit}
use rzp_rebound.OrderStore.Attempts.{commit_counts}
use rzp_rebound.Recovery.{
  AgentVisibleOrder, ActionResult, Surface, State, action_retry_same_instrument,
}
use rzp_rebound.Recovery.Arms.{Arm, naive, represent, claimed, attempted_detail, with_detail}

-- A commit without a key, which is never a replay.
unkeyed : (s : Store) (id action : String) (now : Instant) → (commit s id "" action now).1 ≡ false
unfolding commit lookup_or
unkeyed s id action now = refl

represent-attempts :
    {W : Type 0} (u : Surface W) (s : State W) (order : AgentVisibleOrder) (r : ActionResult)
    (j : String)
    → attempts (represent u s order r "").0.store j
      ≡ (if order.order_id == j then increment (attempts s.store j) else attempts s.store j)
unfolding represent is_notify_action
represent-attempts u s order r j =
    let (_, counted) =
      commit_counts s.store order.order_id "" action_retry_same_instrument
        (u.clock.now (u.attempter s.world order u.card).0) j
        (unkeyed s.store order.order_id action_retry_same_instrument _) in
    counted ∙ ground arith

represent_reaches :
    {W : Type 0} (u : Surface W) (s : State W) (order : AgentVisibleOrder) (r : ActionResult)
    (key : String)
    → (represent u s order r key).1.0.side_effect ≡ true
unfolding represent
represent_reaches u s order r key = go (u.attempter s.world order u.card).1.1
  where
    go :
        (err : Option String)
        → (claimed (attempted_detail r (u.attempter s.world order u.card).1.0) err).side_effect
          ≡ true
    go none = unfold claimed attempted_detail with_detail in ground arith
    go (some e) = unfold claimed attempted_detail with_detail in ground arith

-- The naive arm on one order after another: the results with their orders.
unfoldable pub naive_all :
    {W : Type 0}
    → Arm
    → Surface W
    → State W
    → List AgentVisibleOrder
    → State W × List (String × ActionResult)
naive_all a u s [] = (s, [])
naive_all a u s (order ∷ orders) =
    let (s', acted) = naive a u s order in
    let (last, more) = naive_all a u s' orders in (last, (order.order_id, acted.0) ∷ more)

-- How many of the results about an order reached the gateway.
abbrev pub reached : String → List (String × ActionResult) → ℕ
reached id [] = 0
reached id ((j, r) ∷ rs) = if (j == id) && r.side_effect then suc (reached id rs) else reached id rs

module _ {W : Type 0} (a : Arm) (u : Surface W) (c : ℕ) (cap : a.naive_max ≡ pos c)
    (small : c < 2 ^ 63) where
  -- An act reaches the gateway and counts, or is stopped by the cap and changes nothing.
  pub naive_cases :
      (s : State W) (order : AgentVisibleOrder)
      → ((leb_ℤ (pos c) (attempts s.store order.order_id) ≡ true)
          × ((naive a u s order).0 ≡ s)
          × ((naive a u s order).1.0.side_effect ≡ false))
        ⊎ ((leb_ℤ (pos c) (attempts s.store order.order_id) ≡ false)
            × ((j : String)
                → attempts (naive a u s order).0.store j ≡ (
                    if order.order_id == j
                    then increment (attempts s.store j)
                    else attempts s.store j))
            × ((naive a u s order).1.0.side_effect ≡ true))
  unfolding naive
  naive_cases s order = elim (Bool-cases (leb_ℤ (pos c) (attempts s.store order.order_id))) [
    | inl e ↦ inl (e, rw (cap, e, naive) refl, rw (cap, e, naive) (unfold with_detail in refl))
    | inr e ↦ inr (
      e,
      (λ j. rw (cap, e, naive) (represent-attempts u s order _ j)),
      rw (cap, e, naive) (represent_reaches u s order _ ""),
    )
  ]

  pub increment_pos : (k : ℕ) → k < c → increment (pos k) ≡ pos (suc k)
  unfolding increment wrap64 ◌+ℤ◌
  increment_pos k h = ground arith
