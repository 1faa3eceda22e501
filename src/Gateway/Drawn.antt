-- ===== src/Gateway/Drawn.antt =====
-- The payments that the gateway in memory has kept, call by call, when no id is drawn twice.
use rzp_rebound.Prelude.{
  String, ◌≡◌, ◌≢◌, ◌⊎◌, inl, inr, refl, sym, ◌∙◌, ◌==◌, if◌then◌else◌, none, some, [], insert,
  lookup, lookup-insert, lookup_or, Option, eq_iff, ne-of_==, Bool-cases, Option-cases, arith, pos,
  leb_ℤ,
}
use rzp_rebound.Time.{Instant}
use rzp_rebound.Cards.{failure_for}
use rzp_rebound.Razorpay.{Order, CreatePaymentLinkRequest, order_status_created}
use rzp_rebound.Razorpay.Codec.{CreateOrderRequest}
use rzp_rebound.Gateway.{
  Fake, Built, new_fake, new_id, payment_ids, create_order, create_payment_link, order_status_paid,
  drawn_id,
}
use rzp_rebound.Gateway.Payments.{
  attempt_payment, seed_failed_payment, seed_recovers_after, attempt_unpaid, captured, declined,
  authorizes, payment_on, failed_for,
}
use rzp_rebound.Gateway.Sound.{IsSound}
use rzp_rebound.Gateway.Reached.{
  Call, create, link, attempt, seed, schedule, perform, IsFresh, new_fake-IsSound, perform-IsSound,
}
use rzp_rebound.Gateway.Backed.{AllBacked, Puts, put_payment-AllBacked}

-- A call about the payments of an order changes nothing, or puts one on an order that is not paid.
abbrev pub Attempts : Built → Fake → String → Option Order → Fake → Type 0
Attempts b f id entry g =
    (g ≡ f) ⊎ ((o : Order) × (entry ≡ some o) × (o.status ≢ order_status_paid) × Puts b f id o g)

add_order-AllBacked :
    (f : Fake) (id : String) (o : Order)
    → lookup id f.orders ≡ none
    → o.status ≢ order_status_paid
    → IsSound f
    → AllBacked f
    → AllBacked (record (drawn_id f) { orders = insert id o f.orders })
unfolding payment_ids lookup_or
add_order-AllBacked f id o fresh unpaid sound before other found at =
    elim (Bool-cases (id == other)) [
      | inl same ↦
          let hit : (if id == other then some o else lookup other f.orders) ≡ some found =
            sym (lookup-insert id other o f.orders) ∙ at in
          let key : other ≡ id = sym ((eq_iff id other).0 same) in
          let entry : found ≡ o = ground (arith, hit, same) in
          let none_made : payment_ids f id ≡ [] = sound.unknown id fresh in
          rw (entry, key, none_made) (record { each = tt; paid_by = λ paid. absurd (unpaid paid) })
      | inr apart ↦
          before other found (ground (arith, lookup-insert id other o f.orders, at, apart))
    ]

module _ (b : Built) (f : Fake) (now : Instant) where
  captured-Puts : (id : String) (o : Order) → Puts b f id o (captured b f now id o).0
  unfolding captured payment_on
  captured-Puts id o = record {
    next = _;
    payment = _;
    result = refl;
    moved = (refl, refl, refl, inr (refl, refl, refl));
    drawn = refl;
    of = refl;
    sum = refl;
    fits = inr (refl, refl);
  }

  declined-Puts :
      (id : String) (o : Order) (reason description : String)
      → Puts b f id o (declined b f now id o reason description).0
  unfolding declined payment_on failed_for
  declined-Puts id o reason description = record {
    next = _;
    payment = _;
    result = refl;
    moved = (refl, refl, refl, inl (refl, refl, refl));
    drawn = refl;
    of = refl;
    sum = refl;
    fits = inl (refl, refl);
  }

  attempt_unpaid-Attempts :
      (id : String) (o : Order) (number : String)
      → o.status ≢ order_status_paid
      → Attempts b f id (some o) (attempt_unpaid b f now id o number).0
  unfolding attempt_unpaid
  attempt_unpaid-Attempts id o number unpaid = elim (Bool-cases (authorizes b f id o number)) [
    | inl e ↦ rw (e, attempt_unpaid) (inr (o, refl, unpaid, captured-Puts id o))
    | inr e ↦ elim (Option-cases (failure_for b.cards number)) [
      | inl none_listed ↦ rw (e, none_listed, attempt_unpaid) (inl refl)
      | inr (card, listed) ↦
          rw (e, listed, attempt_unpaid) (inr (o, refl, unpaid, declined-Puts id o _ _))
    ]
  ]

  attempt_payment-Attempts :
      (id number : String)
      → Attempts b f id (lookup id f.orders) (attempt_payment b f now id number).0
  unfolding attempt_payment
  attempt_payment-Attempts id number = elim (Option-cases (lookup id f.orders)) [
    | inl e ↦ rw (e, attempt_payment) (inl refl)
    | inr (o, e) ↦ elim (Bool-cases (o.status == order_status_paid)) [
      | inl paid ↦ rw (e, paid, attempt_payment) (inl refl)
      | inr unpaid ↦
          rw (e, unpaid, attempt_payment)
            (attempt_unpaid-Attempts id o number (ne-of_== _ _ unpaid))
    ]
  ]

  seed_failed_payment-Attempts :
      (id reason : String)
      → Attempts b f id (lookup id f.orders) (seed_failed_payment b f now id reason).0
  unfolding seed_failed_payment
  seed_failed_payment-Attempts id reason = elim (Option-cases (lookup id f.orders)) [
    | inl e ↦ rw (e, seed_failed_payment) (inl refl)
    | inr (o, e) ↦ elim (Bool-cases (o.status == order_status_paid)) [
      | inl paid ↦ rw (e, paid, seed_failed_payment) (inl refl)
      | inr unpaid ↦ elim (Bool-cases (reason == "")) [
        | inl empty ↦ rw (e, unpaid, empty, seed_failed_payment) (inl refl)
        | inr given ↦
            rw (e, unpaid, given, seed_failed_payment)
              (inr (o, refl, ne-of_== _ _ unpaid, declined-Puts id o _ _))
      ]
    ]
  ]

  Attempts-AllBacked :
      (id : String) (g : Fake)
      → Attempts b f id (lookup id f.orders) g
      → lookup (new_id b f "pay_") f.payments ≡ none
      → IsSound f
      → AllBacked f
      → AllBacked g
  Attempts-AllBacked id g (inl same) fresh sound before = rw same before
  Attempts-AllBacked id g (inr (o, there, unpaid, puts)) fresh sound before =
      put_payment-AllBacked b f g id o there unpaid fresh (sound.sound id o there).named puts before

  create_order-AllBacked :
      (req : CreateOrderRequest)
      → lookup (new_id b f "order_") f.orders ≡ none
      → IsSound f
      → AllBacked f
      → AllBacked (create_order b f now req).0
  unfolding create_order
  create_order-AllBacked req fresh sound before =
      elim (Bool-cases (leb_ℤ req.amount_paise (pos 0))) [
        | inl refused ↦ rw (refused, create_order) before
        | inr taken ↦
            rw (taken, create_order)
              (add_order-AllBacked f _ _ fresh
                (ne-of_== order_status_created order_status_paid refl) sound before)
      ]

-- The ids that a call draws are in no use: those of orders, and those of payments.
abbrev pub IsUnused : Built → Fake → Call → Type 0
IsUnused b f (attempt id number) = lookup (new_id b f "pay_") f.payments ≡ none
IsUnused b f (seed id reason) = lookup (new_id b f "pay_") f.payments ≡ none
IsUnused b f c = IsFresh b f c

IsUnused-IsFresh : (b : Built) (f : Fake) (c : Call) → IsUnused b f c → IsFresh b f c
IsUnused-IsFresh b f (create req) h = h
IsUnused-IsFresh b f (link req) h = tt
IsUnused-IsFresh b f (attempt id number) h = tt
IsUnused-IsFresh b f (seed id reason) h = tt
IsUnused-IsFresh b f (schedule id prior) h = tt

-- The states that the gateway comes to by calls that draw no id twice.
pub data Drawn (b : Built) : Fake → Type 0 where
  start : Drawn b new_fake
  after :
      {f : Fake}
      → Drawn b f
      → (now : Instant) (c : Call) → IsUnused b f c
      → Drawn b (perform b f now c)

record-AllBacked :
    (f g : Fake)
    → g.orders ≡ f.orders
    → g.payments ≡ f.payments
    → g.payments_by_order ≡ f.payments_by_order
    → AllBacked f
    → AllBacked g
unfolding payment_ids lookup_or
record-AllBacked f g orders payments ids before id o at =
    rw (payments, ids) (before id o (rw (← orders) at))

create_payment_link-AllBacked :
    (b : Built) (f : Fake) (now : Instant) (req : CreatePaymentLinkRequest)
    → AllBacked f
    → AllBacked (create_payment_link b f now req).0
unfolding create_payment_link
create_payment_link-AllBacked b f now req before =
    elim (Bool-cases (leb_ℤ req.amount_paise (pos 0))) [
      | inl refused ↦ rw (refused, create_payment_link) before
      | inr taken ↦ rw (taken, create_payment_link) (record-AllBacked f _ refl refl refl before)
    ]

perform-AllBacked :
    (b : Built) (f : Fake) (now : Instant) (c : Call)
    → IsUnused b f c
    → IsSound f
    → AllBacked f
    → AllBacked (perform b f now c)
unfolding perform
perform-AllBacked b f now (create req) unused sound before =
    create_order-AllBacked b f now req unused sound before
perform-AllBacked b f now (link req) unused sound before =
    create_payment_link-AllBacked b f now req before
perform-AllBacked b f now (attempt id number) unused sound before =
    Attempts-AllBacked b f now id _ (attempt_payment-Attempts b f now id number) unused sound before
perform-AllBacked b f now (seed id reason) unused sound before =
    Attempts-AllBacked b f now id _ (seed_failed_payment-Attempts b f now id reason) unused sound
      before
perform-AllBacked b f now (schedule id prior) unused sound before =
    unfold seed_recovers_after in record-AllBacked f _ refl refl refl before

new_fake-AllBacked : AllBacked new_fake
unfolding lookup
new_fake-AllBacked id o at = cc

-- However the gateway in memory came to its state, by calls that draw no id twice: the status, the
-- amounts and the attempts of each order agree with one another and with the number of payments
-- made on it, all of which it has kept; each of them is of that order and for its whole amount, and
-- failed, unless the order is paid; and an order that is paid has a payment that was captured.
pub drawn-AllBacked : {b : Built} {f : Fake} → Drawn b f → IsSound f × AllBacked f
drawn-AllBacked start = (new_fake-IsSound, new_fake-AllBacked)
drawn-AllBacked {b = b} (after {f = f} r now c unused) =
    let (sound, backed) = drawn-AllBacked r in
    (
      perform-IsSound b f now c (IsUnused-IsFresh b f c unused) sound,
      perform-AllBacked b f now c unused sound backed,
    )
