-- ===== src/Recovery/Fake/Recovers.antt =====
-- The naive arm of internal/recovery/arms.go on the gateway that is kept in memory.
use rzp_rebound.Prelude.{
  ℕ, zero, suc, ◌+◌, ◌-◌, ◌^◌, ◌<◌, String, ◌≡◌, ◌≢◌, inl, inr, refl, ap, ◌∙◌, Bool, true, false,
  ◌==◌, some, lookup, Bool-cases, ==_refl, arith, pos, leb, leb_ℤ, ◌+ℤ◌, wrap64, ne-of_==,
}
use rzp_rebound.Cards.{Card, failure_for, success_card}
use rzp_rebound.Razorpay.{Order}
use rzp_rebound.Gateway.{Fake, Built, one_more, order_status_attempted, order_status_paid}
use rzp_rebound.Gateway.Payments.{attempt_payment, authorizes}
use rzp_rebound.Gateway.Settled.{
  attempt_pays, attempt_turned_down, attempt_refused, attempt_schedule, paid_off, turned_down,
}
use rzp_rebound.OrderStore.{attempts}
use rzp_rebound.Recovery.{AgentVisibleOrder, Surface, State}
use rzp_rebound.Recovery.Arms.{Arm, naive, represent}
use rzp_rebound.Recovery.Arms.Capped.{naive_cases, increment_pos}
use rzp_rebound.Recovery.Fake.{fake_attempter}

-- The naive arm, acting on one order again and again.
unfoldable pub naive_times : Arm → Surface Fake → AgentVisibleOrder → ℕ → State Fake → State Fake
naive_times a u order zero s = s
naive_times a u order (suc n) s = naive_times a u order n (naive a u s order).0

module _ (b : Built) (a : Arm) (u : Surface Fake) (c : ℕ) (cap : a.naive_max ≡ pos c)
    (small : c < 2 ^ 63) (driven : u.attempter ≡ fake_attempter b u.quoted u.clock.now)
    (order : AgentVisibleOrder) where
  abbrev id : String
  id = order.order_id

  -- The gateway after an act of the arm.
  naive_world :
      (s : State Fake)
      → (leb_ℤ (pos c) (attempts s.store id) ≡ false)
      → (naive a u s order).0.world ≡ (attempt_payment b s.world (u.clock.now s.world) id u.card).0
  unfolding naive represent fake_attempter
  naive_world s e = rw (cap, e, naive, represent) (ap (λ g. (g s.world order u.card).0) driven)

  naive_stopped :
      (s : State Fake)
      → (leb_ℤ (pos c) (attempts s.store id) ≡ true)
      → (naive a u s order).0.world ≡ s.world
  unfolding naive
  naive_stopped s e = rw (cap, e, naive) refl

  -- What the arm has paid stays paid.
  paid_rest :
      (n : ℕ) (s : State Fake) (o : Order)
      → lookup id s.world.orders ≡ some o
      → o.status ≡ order_status_paid
      → lookup id (naive_times a u order n s).world.orders ≡ some o
  unfolding naive_times
  paid_rest zero s o there paid = there
  paid_rest (suc n) s o there paid =
      paid_rest n (naive a u s order).0 o
        (rw (same (leb_ℤ (pos c) (attempts s.store id)) refl) there) paid
    where
      same :
          (stop : Bool)
          → leb_ℤ (pos c) (attempts s.store id) ≡ stop
          → (naive a u s order).0.world ≡ s.world
      same true e = naive_stopped s e
      same false e = naive_world s e ∙ attempt_refused b s.world _ id o u.card there paid

  abbrev Recovered : State Fake → Type 0
  Recovered s = (o : Order) × (lookup id s.world.orders ≡ some o) × (o.status ≡ order_status_paid)

  one_more_pos : (t r : ℕ) → t < r → r < 2 ^ 63 → one_more (pos t) ≡ pos (suc t)
  unfolding one_more wrap64 ◌+ℤ◌
  one_more_pos t r h fits = ground arith

  -- The schedule is what decides for a card that fails.
  scheduled_authorizes :
      (r t : ℕ) (f : Fake) (o : Order)
      → (u.card == success_card b.cards) ≡ false
      → o.attempts ≡ pos t
      → lookup id f.recovers_after ≡ some (pos r)
      → authorizes b f id o u.card ≡ leb r t
  unfolding authorizes
  scheduled_authorizes r t f o failing made scheduled = rw (failing, scheduled, made) (ground arith)

  -- An act that the cap lets through counts one more attempt.
  counted_once :
      (s : State Fake) (k : ℕ)
      → attempts s.store id ≡ pos k
      → k < c
      → attempts (naive a u s order).0.store id ≡ pos (suc k)
  counted_once s k counted below = elim (naive_cases a u c cap small s order) [
    | inl (stopped, _, _) ↦ absurd (ground (arith, stopped, counted))
    | inr (_, counts, _) ↦
        counts id ∙ ground (arith, ==_refl id, counted, increment_pos a u c cap small k below)
  ]

  recovers :
      (card : Card) (r n t k : ℕ) (s : State Fake) (o : Order)
      → failure_for b.cards u.card ≡ some card
      → (u.card == success_card b.cards) ≡ false
      → r < 2 ^ 63
      → lookup id s.world.orders ≡ some o
      → o.status ≢ order_status_paid
      → o.attempts ≡ pos t
      → lookup id s.world.recovers_after ≡ some (pos r)
      → attempts s.store id ≡ pos k
      → r - t < n
      → k + (r - t) < c
      → Recovered (naive_times a u order n s)
  unfolding naive_times
  recovers card r zero t k s o listed failing fits there unpaid made scheduled counted enough room =
      absurd (omega arith)
  recovers card r (suc n) t k s o listed failing fits there unpaid made scheduled counted enough
        room =
      elim (Bool-cases (leb r t)) [
        | inl due ↦
            let pays =
              attempt_pays b s.world (u.clock.now s.world) id o u.card there unpaid (lets ∙ due) in
            let paid = paid_off b s.world (u.clock.now s.world) id o in
            (paid, paid_rest n (naive a u s order).0 paid (rw world pays) refl, refl)
        | inr early ↦
            let down = turned_down b s.world (u.clock.now s.world) id o in
            let kept =
              attempt_turned_down b s.world (u.clock.now s.world) id o u.card card there unpaid
                (lets ∙ early) listed in
            recovers card r n (suc t) (suc k) (naive a u s order).0 down listed failing fits
              (rw world kept) (ne-of_== order_status_attempted order_status_paid refl)
              (ap one_more made ∙ one_more_pos t r (ground arith) fits)
              (rw (world, attempt_schedule b s.world (u.clock.now s.world) id u.card) scheduled)
              (counted_once s k counted (omega arith)) (ground arith) (ground arith)
      ]
    where
      goes : leb_ℤ (pos c) (attempts s.store id) ≡ false
      goes = ground (arith, counted, room)

      world :
          (naive a u s order).0.world
          ≡ (attempt_payment b s.world (u.clock.now s.world) id u.card).0
      world = naive_world s goes

      lets : authorizes b s.world id o u.card ≡ leb r t
      lets = scheduled_authorizes r t s.world o failing made scheduled

-- The naive arm recovers what can be: an unpaid order that the gateway recovers after `r` attempts,
-- and that has had `t` of them, is paid when the arm has acted on it more often than `r - t`, if
-- its cap leaves it as many attempts, with a card that is documented to fail.
pub naive_times-recovers :
    (b : Built) (a : Arm) (u : Surface Fake) (c : ℕ)
    → a.naive_max ≡ pos c
    → c < 2 ^ 63
    → u.attempter ≡ fake_attempter b u.quoted u.clock.now
    → (card : Card) → failure_for b.cards u.card ≡ some card
    → (u.card == success_card b.cards) ≡ false
    → (order : AgentVisibleOrder) (s : State Fake) (o : Order) (r t k n : ℕ)
    → lookup order.order_id s.world.orders ≡ some o
    → o.status ≢ order_status_paid
    → o.attempts ≡ pos t
    → lookup order.order_id s.world.recovers_after ≡ some (pos r)
    → r < 2 ^ 63
    → attempts s.store order.order_id ≡ pos k
    → r - t < n
    → k + (r - t) < c
    → (o' : Order) × (lookup order.order_id (naive_times a u order n s).world.orders ≡ some o')
      × (o'.status ≡ order_status_paid)
naive_times-recovers b a u c cap small driven card listed failing order s o r t k n there unpaid
      made scheduled fits counted enough room =
    recovers b a u c cap small driven order card r n t k s o listed failing fits there unpaid made
      scheduled counted enough room
