-- ===== src/Gateway/Reached.antt =====
-- What the gateway that is kept in memory can have come to, call by call.
use rzp_rebound.Prelude.{
  String, ◌≡◌, ◌≢◌, inl, inr, refl, sym, ◌∙◌, ◌==◌, if◌then◌else◌, none, some, [], insert, lookup,
  lookup-insert, lookup_or, eq_iff, ne-of_==, Bool-cases, Option-cases, arith, ℤ, pos, wrap64,
  leb_ℤ,
}
use rzp_rebound.Time.{Instant}
use rzp_rebound.Cards.{failure_for}
use rzp_rebound.Razorpay.{Order, CreatePaymentLinkRequest}
use rzp_rebound.Razorpay.Codec.{CreateOrderRequest}
use rzp_rebound.Gateway.{
  Fake, Built, new_fake, new_id, payment_ids, create_order, create_payment_link, order_status_paid,
  drawn_id,
}
use rzp_rebound.Gateway.Payments.{
  attempt_payment, seed_failed_payment, seed_recovers_after, attempt_unpaid, captured, declined,
  authorizes,
}
use rzp_rebound.Gateway.Sound.{IsSoundOrder, IsSound, put_payment-IsSound}

record-IsSound :
    (f g : Fake)
    → g.orders ≡ f.orders
    → g.payments ≡ f.payments
    → g.payments_by_order ≡ f.payments_by_order
    → IsSound f
    → IsSound g
unfolding payment_ids lookup_or
record-IsSound f g orders payments ids before = record {
  sound = λ id o at. rw (payments, ids) (before.sound id o (rw (← orders) at));
  unknown = λ id at. rw ids (before.unknown id (rw (← orders) at));
}

-- A new order under an id that no order has.
add_order-IsSound :
    (f : Fake) (id : String) (o : Order)
    → lookup id f.orders ≡ none
    → IsSoundOrder f.payments [] id o
    → IsSound f
    → IsSound (record (drawn_id f) { orders = insert id o f.orders })
unfolding payment_ids lookup_or
add_order-IsSound f id o fresh new before = record {
  sound = λ other found at. elim (Bool-cases (id == other)) [
    | inl same ↦
        let hit : (if id == other then some o else lookup other f.orders) ≡ some found =
          sym (lookup-insert id other o f.orders) ∙ at in
        let key : other ≡ id = sym ((eq_iff id other).0 same) in
        let entry : found ≡ o = ground (arith, hit, same) in
        let none_made : payment_ids f id ≡ [] = before.unknown id fresh in
        rw (entry, key, none_made) new
    | inr apart ↦
        before.sound other found (ground (arith, lookup-insert id other o f.orders, at, apart))
  ];
  unknown = λ other missing.
      before.unknown other (ground (arith, lookup-insert id other o f.orders, missing));
}

module _ (b : Built) (f : Fake) (now : Instant) (before : IsSound f) where
  captured-IsSound :
      (id : String) (o : Order)
      → lookup id f.orders ≡ some o
      → o.status ≢ order_status_paid
      → IsSound (captured b f now id o).0
  unfolding captured
  captured-IsSound id o there unpaid =
      put_payment-IsSound f id o _ _ there unpaid (refl, refl, refl, inr (refl, refl, refl)) before

  declined-IsSound :
      (id : String) (o : Order) (reason description : String)
      → lookup id f.orders ≡ some o
      → o.status ≢ order_status_paid
      → IsSound (declined b f now id o reason description).0
  unfolding declined
  declined-IsSound id o reason description there unpaid =
      put_payment-IsSound f id o _ _ there unpaid (refl, refl, refl, inl (refl, refl, refl)) before

  attempt_unpaid-IsSound :
      (id : String) (o : Order) (number : String)
      → lookup id f.orders ≡ some o
      → o.status ≢ order_status_paid
      → IsSound (attempt_unpaid b f now id o number).0
  unfolding attempt_unpaid
  attempt_unpaid-IsSound id o number there unpaid = elim (Bool-cases (authorizes b f id o number)) [
    | inl e ↦ rw (e, attempt_unpaid) (captured-IsSound id o there unpaid)
    | inr e ↦ elim (Option-cases (failure_for b.cards number)) [
      | inl none_listed ↦ rw (e, none_listed, attempt_unpaid) before
      | inr (card, listed) ↦ rw (e, listed, attempt_unpaid) (declined-IsSound id o _ _ there unpaid)
    ]
  ]

  attempt_payment-IsSound : (id number : String) → IsSound (attempt_payment b f now id number).0
  unfolding attempt_payment
  attempt_payment-IsSound id number = elim (Option-cases (lookup id f.orders)) [
    | inl e ↦ rw (e, attempt_payment) before
    | inr (o, e) ↦ elim (Bool-cases (o.status == order_status_paid)) [
      | inl paid ↦ rw (e, paid, attempt_payment) before
      | inr unpaid ↦
          rw (e, unpaid, attempt_payment)
            (attempt_unpaid-IsSound id o number e (ne-of_== _ _ unpaid))
    ]
  ]

  seed_failed_payment-IsSound :
      (id reason : String) → IsSound (seed_failed_payment b f now id reason).0
  unfolding seed_failed_payment
  seed_failed_payment-IsSound id reason = elim (Option-cases (lookup id f.orders)) [
    | inl e ↦ rw (e, seed_failed_payment) before
    | inr (o, e) ↦ elim (Bool-cases (o.status == order_status_paid)) [
      | inl paid ↦ rw (e, paid, seed_failed_payment) before
      | inr unpaid ↦ elim (Bool-cases (reason == "")) [
        | inl empty ↦ rw (e, unpaid, empty, seed_failed_payment) before
        | inr given ↦
            rw (e, unpaid, given, seed_failed_payment)
              (declined-IsSound id o _ _ e (ne-of_== _ _ unpaid))
      ]
    ]
  ]

  create_order-IsSound :
      (req : CreateOrderRequest)
      → lookup (new_id b f "order_") f.orders ≡ none
      → IsSound (create_order b f now req).0
  unfolding create_order wrap64
  create_order-IsSound req fresh = elim (Bool-cases (leb_ℤ req.amount_paise (pos 0))) [
    | inl refused ↦ rw (refused, create_order) before
    | inr taken ↦
        rw (taken, create_order)
          (add_order-IsSound f _ _ fresh
            (record {
              named = refl;
              positive = ground arith;
              counted = refl;
              stage = inl (refl, refl, refl, refl);
              kept = tt;
            })
            before)
  ]

pub data Call : Type 0 where
  create : CreateOrderRequest → Call
  link : CreatePaymentLinkRequest → Call
  attempt : String → String → Call
  seed : String → String → Call
  schedule : String → ℤ → Call

-- The state after a call, whatever it answers; the calls that only read are left out.
unfoldable pub perform : Built → Fake → Instant → Call → Fake
perform b f now (create req) = (create_order b f now req).0
perform b f now (link req) = (create_payment_link b f now req).0
perform b f now (attempt id number) = (attempt_payment b f now id number).0
perform b f now (seed id reason) = (seed_failed_payment b f now id reason).0
perform b f now (schedule id prior) = seed_recovers_after f id prior

-- The id that is drawn for an order is no other order's.
abbrev pub IsFresh : Built → Fake → Call → Type 0
IsFresh b f (create req) = lookup (new_id b f "order_") f.orders ≡ none
IsFresh b f _ = Unit

pub data Reached (b : Built) : Fake → Type 0 where
  start : Reached b new_fake
  after :
      {f : Fake}
      → Reached b f
      → (now : Instant) (c : Call) → IsFresh b f c
      → Reached b (perform b f now c)

create_payment_link-IsSound :
    (b : Built) (f : Fake) (now : Instant) (req : CreatePaymentLinkRequest)
    → IsSound f
    → IsSound (create_payment_link b f now req).0
unfolding create_payment_link
create_payment_link-IsSound b f now req before =
    elim (Bool-cases (leb_ℤ req.amount_paise (pos 0))) [
      | inl refused ↦ rw (refused, create_payment_link) before
      | inr taken ↦ rw (taken, create_payment_link) (record-IsSound f _ refl refl refl before)
    ]

pub perform-IsSound :
    (b : Built) (f : Fake) (now : Instant) (c : Call)
    → IsFresh b f c
    → IsSound f
    → IsSound (perform b f now c)
unfolding perform
perform-IsSound b f now (create req) fresh before = create_order-IsSound b f now before req fresh
perform-IsSound b f now (link req) fresh before = create_payment_link-IsSound b f now req before
perform-IsSound b f now (attempt id number) fresh before =
    attempt_payment-IsSound b f now before id number
perform-IsSound b f now (seed id reason) fresh before =
    seed_failed_payment-IsSound b f now before id reason
perform-IsSound b f now (schedule id prior) fresh before =
    unfold seed_recovers_after in record-IsSound f _ refl refl refl before

pub new_fake-IsSound : IsSound new_fake
unfolding payment_ids lookup lookup_or
new_fake-IsSound = record { sound = λ id o at. cc; unknown = λ id at. refl }

pub reached-IsSound : {b : Built} {f : Fake} → Reached b f → IsSound f
reached-IsSound start = new_fake-IsSound
reached-IsSound {b = b} (after {f = f} r now c fresh) =
    perform-IsSound b f now c fresh (reached-IsSound r)
