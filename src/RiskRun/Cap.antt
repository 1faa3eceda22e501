-- ===== src/RiskRun/Cap.antt =====
-- How often a source may be contacted, and what a pass that acts was allowed.
use rzp_rebound.Prelude.{
  String, ◌≡◌, refl, ap, ◌∙◌, ◌⊎◌, inl, inr, ◌^◌, false, Option, none, some, ℤ, pos, ◌≤ℤ◌, ◌<ℤ◌,
  arith, OneOf, lookup,
}
use rzp_rebound.Action
use rzp_rebound.Time.{Instant}
use rzp_rebound.RiskItem.{RiskItem}
use rzp_rebound.Policy.{
  allow, allowed, scene, params_for, params_row, source_params, normalize_request, normalize_state,
}
use rzp_rebound.Policy.Adapter.{Facts, request_from_classified}
use rzp_rebound.Policy.Fires.{contact_actions}
use rzp_rebound.Policy.Allowed.{evaluate_allow_iff}
use rzp_rebound.RiskRun.{
  Instants, propose_action, Ledger, touches_of, state, commit, Gate, ask, Trail, choose, Pass, act,
  facts_at, process,
}

-- How many contacts a source allows, in the settings of the gate.
abbrev pub cap : Gate → String → ℤ
cap g source = (params_for g.cfg source).max_touches

pub cap_range :
    (g : Gate) (source : String)
    → g.cfg.max_touches_per_item <ℤ pos (2 ^ 63)
    → (pos 0 ≤ℤ cap g source) × (cap g source <ℤ pos (2 ^ 63))
unfolding params_for params_row lookup source_params
cap_range g source h = ground arith

-- An action and its key come from a decision of the gate that allows it, over the ledger as it is.
pub record Chosen (g : Gate) (l : Ledger) (item : RiskItem) (facts : Facts) (action key : String)
    : Type 0 where
  pub at : Instant
  pub allows : (ask g l at item facts action).verdict ≡ allow
  pub keyed : key ≡ (ask g l at item facts action).idempotency_key

-- What is chosen is the proposed action or the escalation, each allowed at its own evaluation.
pub choose_one :
    (g : Gate) (l : Ledger) (clock : Instants) (item : RiskItem) (facts : Facts) (trail : Trail)
    (action key : String)
    → choose g l clock item facts trail ≡ some (action, key)
    → ((action ≡ propose_action item)
        × ((ask g l clock.decided item facts action).verdict ≡ allow)
        × (key ≡ (ask g l clock.decided item facts action).idempotency_key))
      ⊎ ((action ≡ Action.escalate)
          × ((ask g l clock.escalated item facts action).verdict ≡ allow)
          × (key ≡ (ask g l clock.escalated item facts action).idempotency_key))
unfolding choose allowed
choose_one g l clock item facts trail action key e = ground arith

pub choose-Chosen :
    (g : Gate) (l : Ledger) (clock : Instants) (item : RiskItem) (facts : Facts) (trail : Trail)
    (action key : String)
    → choose g l clock item facts trail ≡ some (action, key)
    → Chosen g l item facts action key
choose-Chosen g l clock item facts trail action key e =
    elim (choose_one g l clock item facts trail action key e) [
      | inl (is, v, k) ↦ record { at = clock.decided; allows = v; keyed = k }
      | inr (is, v, k) ↦ record { at = clock.escalated; allows = v; keyed = k }
    ]

pub allowed-touches_left :
    (g : Gate) (l : Ledger) (now : Instant) (item : RiskItem) (facts : Facts) (action : String)
    → (ask g l now item facts action).verdict ≡ allow
    → OneOf action contact_actions
    → touches_of l item.id <ℤ cap g item.source
unfolding ask scene normalize_request normalize_state state request_from_classified
allowed-touches_left g l now item facts action v c =
    let (_, (_, (_, (_, (_, (_, (_, (_, (_, (_, (touches, _))))))))))) =
      (evaluate_allow_iff _ _ _ _ _).0 v in
    omega (arith, λ (h : cap g item.source ≤ℤ touches_of l item.id). touches (c, ground arith))

-- A pass that comes to an action and commits it.
pub record Acts (g : Gate) (l : Ledger) (p : Pass) : Type 0 where
  pub action : String
  pub key : String
  pub chosen : choose g l p.clock p.item (facts_at l p) p.trail ≡ some (action, key)
  pub committed : process g l p ≡ commit l p.item.id key action p.accepted p.committed_at

act_commits :
    (l : Ledger) (p : Pass) (action key : String)
    → let done = act l p (some (action, key)) in
      (done ≡ (l, false)) ⊎ (done ≡ commit l p.item.id key action p.accepted p.committed_at)
unfolding act
act_commits l p action key = ground arith

pub process-Acts : (g : Gate) (l : Ledger) (p : Pass) → (process g l p ≡ (l, false)) ⊎ Acts g l p
unfolding process
process-Acts g l p = go (choose g l p.clock p.item (facts_at l p) p.trail) refl
  where
    go :
        (o : Option (String × String))
        → choose g l p.clock p.item (facts_at l p) p.trail ≡ o
        → (process g l p ≡ (l, false)) ⊎ Acts g l p
    go none e = inl (ap (act l p) e ∙ (unfold act in refl))
    go (some (action, key)) e = elim (act_commits l p action key) [
      | inl idle ↦ inl (ap (act l p) e ∙ idle)
      | inr live ↦
          inr (record { action = action; key = key; chosen = e; committed = ap (act l p) e ∙ live })
    ]
