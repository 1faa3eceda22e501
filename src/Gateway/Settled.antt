-- ===== src/Gateway/Settled.antt =====
-- What an attempt makes of one order of the gateway that is kept in memory, and what none changes.
use rzp_rebound.Prelude.{
  String, ◌≡◌, ◌≢◌, inl, inr, refl, sym, ◌∙◌, true, false, ◌==◌, if◌then◌else◌, none, some, List,
  [], ◌∷◌, All, length, Dict, lookup, lookup-insert, is_some, eq_iff, ==_refl, ==-ne, Bool-cases,
  Option-cases, arith, pos, wrap64, leb_ℤ,
}
use rzp_rebound.Time.{Instant}
use rzp_rebound.Cards.{Card, failure_for}
use rzp_rebound.Razorpay.{Order, Payment}
use rzp_rebound.Razorpay.Codec.{CreateOrderRequest}
use rzp_rebound.Gateway.{
  Fake, Built, new_id, one_more, create_order, create_payment_link, order_status_attempted,
  order_status_paid, list_payments_for_order, collect, put_payment, payment_ids,
}
use rzp_rebound.Gateway.Payments.{
  attempt_payment, seed_failed_payment, seed_recovers_after, attempt_unpaid, captured, declined,
  authorizes,
}
use rzp_rebound.Gateway.Reached.{
  Call, create, link, attempt, seed, schedule, perform, IsFresh, Reached, reached-IsSound,
}

collect-All :
    (payments : Dict Payment) (ids : List String)
    → All (λ pid. is_some (lookup pid payments) ≡ true) ids
    → (ps : List Payment) × (collect payments ids ≡ some ps) × (length ps ≡ length ids)
unfolding collect
collect-All payments [] h = ([], refl, refl)
collect-All payments (id ∷ ids) h = elim (Option-cases (lookup id payments)) [
  | inl e ↦ absurd (ground (arith, e, h.0))
  | inr (p, e) ↦
      let (ps, same, long) = collect-All payments ids h.1 in
      (p ∷ ps, ground (arith, e, same), omega (arith, long))
]

-- However the gateway came to its state, listing the payments of an order that it has meets no
-- missing payment, and lists as many as the order counts attempts.
pub reached_lists :
    {b : Built} {f : Fake} (id : String) (o : Order)
    → Reached b f
    → lookup id f.orders ≡ some o
    → (ps : List Payment) × (list_payments_for_order f id ≡ inr (some ps))
      × (o.attempts ≡ wrap64 (pos (length ps)))
reached_lists {f = f} id o r there =
    let order = (reached-IsSound r).sound id o there in
    let (ps, same, long) = collect-All f.payments (payment_ids f id) order.kept in
    (ps, unfold list_payments_for_order in ground (arith, there, same), rw long order.counted)

put_order :
    (f : Fake) (id : String) (o : Order) (p : Payment) (other : String)
    → lookup other (put_payment f id o p).orders ≡ (
        if id == other
        then some (record o { attempts = one_more o.attempts })
        else lookup other f.orders)
unfolding put_payment
put_order f id o p other =
    lookup-insert id other (record o { attempts = one_more o.attempts }) f.orders

module _ (b : Built) (f : Fake) (now : Instant) (id : String) (o : Order) where
  abbrev pub paid_off : Order
  paid_off = record o {
    status = order_status_paid;
    amount_paid = o.amount_paise;
    amount_due = pos 0;
    attempts = one_more o.attempts;
  }

  abbrev pub turned_down : Order
  turned_down = record o { status = order_status_attempted; attempts = one_more o.attempts }

  captured_order :
      (other : String)
      → lookup other (captured b f now id o).0.orders
        ≡ (if id == other then some paid_off else lookup other f.orders)
  unfolding captured
  captured_order other = put_order f id _ _ other

  declined_order :
      (reason description other : String)
      → lookup other (declined b f now id o reason description).0.orders
        ≡ (if id == other then some turned_down else lookup other f.orders)
  unfolding declined
  declined_order reason description other = put_order f id _ _ other

  -- An attempt that the schedule or the card lets through pays the order in full.
  pub attempt_pays :
      (number : String)
      → lookup id f.orders ≡ some o
      → o.status ≢ order_status_paid
      → authorizes b f id o number ≡ true
      → lookup id (attempt_payment b f now id number).0.orders ≡ some paid_off
  unfolding attempt_payment attempt_unpaid
  attempt_pays number there unpaid let_through =
      rw
        (
          there,
          ==-ne o.status order_status_paid unpaid,
          attempt_payment,
          let_through,
          attempt_unpaid,
        )
        (captured_order id ∙ ground (arith, ==_refl id))

  -- Any other attempt with a documented card counts and leaves the order unpaid.
  pub attempt_turned_down :
      (number : String) (card : Card)
      → lookup id f.orders ≡ some o
      → o.status ≢ order_status_paid
      → authorizes b f id o number ≡ false
      → failure_for b.cards number ≡ some card
      → lookup id (attempt_payment b f now id number).0.orders ≡ some turned_down
  unfolding attempt_payment attempt_unpaid
  attempt_turned_down number card there unpaid refused listed =
      rw
        (
          there,
          ==-ne o.status order_status_paid unpaid,
          attempt_payment,
          refused,
          listed,
          attempt_unpaid,
        )
        (declined_order card.error_code _ id ∙ ground (arith, ==_refl id))

  -- An attempt on a paid order is refused.
  pub attempt_refused :
      (number : String)
      → lookup id f.orders ≡ some o
      → o.status ≡ order_status_paid
      → (attempt_payment b f now id number).0 ≡ f
  unfolding attempt_payment
  attempt_refused number there paid =
      let closed : (o.status == order_status_paid) ≡ true =
        (eq_iff o.status order_status_paid).1 paid in
      rw (there, closed, attempt_payment) refl

module _ (b : Built) (f : Fake) (now : Instant) (id : String) (o : Order)
    (there : lookup id f.orders ≡ some o) (paid : o.status ≡ order_status_paid) where
  create_order_keeps :
      (req : CreateOrderRequest)
      → lookup (new_id b f "order_") f.orders ≡ none
      → lookup id (create_order b f now req).0.orders ≡ some o
  unfolding create_order
  create_order_keeps req fresh = elim (Bool-cases (leb_ℤ req.amount_paise (pos 0))) [
    | inl refused ↦ rw (refused, create_order) there
    | inr taken ↦
        rw (taken, create_order)
          (lookup-insert (new_id b f "order_") id _ f.orders
            ∙ ground (arith, eq_iff (new_id b f "order_") id, fresh, there))
  ]

  -- An order that is not paid is another order.
  apart :
      (other : String) (o' : Order)
      → lookup other f.orders ≡ some o'
      → (o'.status == order_status_paid) ≡ false
      → (other == id) ≡ false
  apart other o' listed unpaid = ==-ne other id λ same.
      let both : some o' ≡ some o = sym (rw (← same) listed) ∙ there in
      ground (arith, both, paid, eq_iff o'.status order_status_paid)

  attempt_unpaid_keeps :
      (other : String) (o' : Order) (number : String)
      → (other == id) ≡ false
      → lookup id (attempt_unpaid b f now other o' number).0.orders ≡ some o
  unfolding attempt_unpaid
  attempt_unpaid_keeps other o' number e = elim (Bool-cases (authorizes b f other o' number)) [
    | inl let_through ↦
        rw (let_through, attempt_unpaid)
          (captured_order b f now other o' id ∙ ground (arith, e, there))
    | inr refused ↦ elim (Option-cases (failure_for b.cards number)) [
      | inl unlisted ↦ rw (refused, unlisted, attempt_unpaid) there
      | inr (card, listed) ↦
          rw (refused, listed, attempt_unpaid)
            (declined_order b f now other o' _ _ id ∙ ground (arith, e, there))
    ]
  ]

  attempt_keeps :
      (other number : String) → lookup id (attempt_payment b f now other number).0.orders ≡ some o
  unfolding attempt_payment
  attempt_keeps other number = elim (Option-cases (lookup other f.orders)) [
    | inl e ↦ rw (e, attempt_payment) there
    | inr (o', e) ↦ elim (Bool-cases (o'.status == order_status_paid)) [
      | inl closed ↦ rw (e, closed, attempt_payment) there
      | inr unpaid ↦
          rw (e, unpaid, attempt_payment)
            (attempt_unpaid_keeps other o' number (apart other o' e unpaid))
    ]
  ]

  seed_keeps :
      (other reason : String)
      → lookup id (seed_failed_payment b f now other reason).0.orders ≡ some o
  unfolding seed_failed_payment
  seed_keeps other reason = elim (Option-cases (lookup other f.orders)) [
    | inl e ↦ rw (e, seed_failed_payment) there
    | inr (o', e) ↦ elim (Bool-cases (o'.status == order_status_paid)) [
      | inl closed ↦ rw (e, closed, seed_failed_payment) there
      | inr unpaid ↦ elim (Bool-cases (reason == "")) [
        | inl empty ↦ rw (e, unpaid, empty, seed_failed_payment) there
        | inr given ↦
            rw (e, unpaid, given, seed_failed_payment)
              (declined_order b f now other o' _ _ id
                ∙ ground (arith, apart other o' e unpaid, there))
      ]
    ]
  ]

  -- An order that is paid stays as it is, whatever is called.
  pub paid_stays : (c : Call) → IsFresh b f c → lookup id (perform b f now c).orders ≡ some o
  unfolding perform
  paid_stays (create req) fresh = create_order_keeps req fresh
  paid_stays (link req) fresh = unfold create_payment_link in ground (arith, there)
  paid_stays (attempt other number) fresh = attempt_keeps other number
  paid_stays (seed other reason) fresh = seed_keeps other reason
  paid_stays (schedule other prior) fresh = unfold seed_recovers_after in there

-- No attempt changes what the gateway knows of when an order recovers.
pub attempt_schedule :
    (b : Built) (f : Fake) (now : Instant) (id number : String)
    → (attempt_payment b f now id number).0.recovers_after ≡ f.recovers_after
unfolding attempt_payment attempt_unpaid captured declined put_payment
attempt_schedule b f now id number = ground arith
