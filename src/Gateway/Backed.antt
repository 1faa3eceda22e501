-- ===== src/Gateway/Backed.antt =====
-- The payments that the gateway in memory has kept: what each says of its order, and which one paid it.
use rzp_rebound.Prelude.{
  String, ◌≡◌, ◌≢◌, ◌⊎◌, inl, inr, refl, sym, ◌∙◌, ◌==◌, none, some, List, [], ◌∷◌, ◌++◌, All,
  All-append, Dict, insert, lookup, lookup-insert, eq_iff, ==_refl, ne-of_==, Bool-cases, OneOf,
  arith,
}
use rzp_rebound.Razorpay.{Order, Payment, payment_status_failed}
use rzp_rebound.Gateway.{
  Fake, Built, new_id, payment_ids, put_payment, order_status_attempted, order_status_paid,
  payment_status_captured, one_more,
}
use rzp_rebound.Gateway.Sound.{Moved, found_here, found_there}

-- A payment of the order, for its whole amount: one that failed, or the one that paid it.
abbrev pub IsPaymentOf : Dict Payment → Order → String → Type 0
IsPaymentOf payments o pid =
    (p : Payment) × (lookup pid payments ≡ some p)
    × (p.id ≡ pid)
    × (p.order_id ≡ o.id)
    × (p.amount_paise ≡ o.amount_paise)
    × ((p.status ≡ payment_status_failed)
        ⊎ ((p.status ≡ payment_status_captured) × (o.status ≡ order_status_paid)))

abbrev pub IsCaptured : Dict Payment → String → Type 0
IsCaptured payments pid =
    (p : Payment) × (lookup pid payments ≡ some p) × (p.status ≡ payment_status_captured)

-- All the payments of an order are kept, and a paid order has one that was captured.
pub record IsBacked (payments : Dict Payment) (ids : List String) (o : Order) : Type 0 where
  pub each : All (IsPaymentOf payments o) ids
  pub paid_by :
      o.status ≡ order_status_paid → (pid : String) × OneOf pid ids × IsCaptured payments pid

abbrev pub AllBacked : Fake → Type 0
AllBacked f =
    (id : String) (o : Order)
    → lookup id f.orders ≡ some o
    → IsBacked f.payments (payment_ids f id) o

-- A new payment hides none of those that there are.
lookup_kept :
    (payments : Dict Payment) (new p : Payment) (pid : String)
    → lookup new.id payments ≡ none
    → lookup pid payments ≡ some p
    → lookup pid (insert new.id new payments) ≡ some p
lookup_kept payments new p pid fresh there =
    ground (arith, lookup-insert new.id pid new payments, eq_iff new.id pid, fresh, there)

-- The order that a payment is of keeps its id and its amount, and is not yet paid.
each_kept :
    (payments : Dict Payment) (new : Payment) (o next : Order) (ids : List String)
    → lookup new.id payments ≡ none
    → next.id ≡ o.id
    → next.amount_paise ≡ o.amount_paise
    → (o.status ≡ order_status_paid → next.status ≡ order_status_paid)
    → All (IsPaymentOf payments o) ids
    → All (IsPaymentOf (insert new.id new payments) next) ids
each_kept payments new o next [] fresh named same paid h = tt
each_kept payments new o next (pid ∷ ids) fresh named same paid
      ((p, there, is, of, sum, how), rest) =
    (
      (
        p,
        lookup_kept payments new p pid fresh there,
        is,
        of ∙ sym named,
        sum ∙ sym same,
        elim how [ inl failed ↦ inl failed | inr (done, was) ↦ inr (done, paid was) ],
      ),
      each_kept payments new o next ids fresh named same paid rest,
    )

-- What an attempt that counts puts on an order that is not paid: a payment with a new id that
-- failed, or one that was captured and pays it.
pub record Puts (b : Built) (f : Fake) (id : String) (o : Order) (g : Fake) : Type 0 where
  pub next : Order
  pub payment : Payment
  pub result : g ≡ put_payment f id next payment
  pub moved : Moved o next
  pub drawn : payment.id ≡ new_id b f "pay_"
  pub of : payment.order_id ≡ id
  pub sum : payment.amount_paise ≡ o.amount_paise
  pub fits :
      ((payment.status ≡ payment_status_failed) × (next.status ≡ order_status_attempted))
      ⊎ ((payment.status ≡ payment_status_captured) × (next.status ≡ order_status_paid))

unpaid_yet : order_status_attempted ≢ order_status_paid
unpaid_yet = ne-of_== order_status_attempted order_status_paid refl

OneOf-last : (ids : List String) (pid : String) → OneOf pid (ids ++ pid ∷ [])
OneOf-last [] pid = inl refl
OneOf-last (x ∷ ids) pid = inr (OneOf-last ids pid)

Puts-IsBacked :
    (b : Built) (f g : Fake) (id : String) (o : Order) (puts : Puts b f id o g)
    → o.id ≡ id
    → o.status ≢ order_status_paid
    → lookup (new_id b f "pay_") f.payments ≡ none
    → All (IsPaymentOf f.payments o) (payment_ids f id)
    → IsBacked
        (insert puts.payment.id puts.payment f.payments)
        (payment_ids f id ++ puts.payment.id ∷ [])
        (record puts.next { attempts = one_more puts.next.attempts })
Puts-IsBacked b f g id o puts named unpaid fresh each =
    let new : lookup puts.payment.id f.payments ≡ none = rw puts.drawn fresh in
    let here : lookup puts.payment.id (insert puts.payment.id puts.payment f.payments)
        ≡ some puts.payment =
      ground (
        arith,
        lookup-insert puts.payment.id puts.payment.id puts.payment f.payments,
        ==_refl puts.payment.id,
      ) in
    let (same_id, same_sum, _, _) = puts.moved in
    record {
      each =
          All-append _ (payment_ids f id) (puts.payment.id ∷ [])
            (each_kept f.payments puts.payment o
              (record puts.next { attempts = one_more puts.next.attempts }) (payment_ids f id) new
              same_id same_sum (λ was. absurd (unpaid was)) each)
            (
              (
                puts.payment,
                here,
                refl,
                puts.of ∙ sym named ∙ sym same_id,
                puts.sum ∙ sym same_sum,
                elim puts.fits [ inl (failed, _) ↦ inl failed | inr done ↦ inr done ],
              ),
              tt,
            );
      paid_by = λ paid. elim puts.fits [
        | inl (_, open_yet) ↦ absurd (unpaid_yet (sym open_yet ∙ paid))
        | inr (done, _) ↦ (
          puts.payment.id,
          OneOf-last (payment_ids f id) puts.payment.id,
          (puts.payment, here, done),
        )
      ];
    }

other-IsBacked :
    (payments : Dict Payment) (new : Payment) (ids : List String) (o : Order)
    → lookup new.id payments ≡ none
    → IsBacked payments ids o
    → IsBacked (insert new.id new payments) ids o
other-IsBacked payments new ids o fresh h = record {
  each = each_kept payments new o o ids fresh refl refl (λ was. was) h.each;
  paid_by = λ paid.
      let (pid, listed, (p, there, done)) = h.paid_by paid in
      (pid, listed, (p, lookup_kept payments new p pid fresh there, done));
}

pub put_payment-AllBacked :
    (b : Built) (f g : Fake) (id : String) (o : Order)
    → lookup id f.orders ≡ some o
    → o.status ≢ order_status_paid
    → lookup (new_id b f "pay_") f.payments ≡ none
    → o.id ≡ id
    → Puts b f id o g
    → AllBacked f
    → AllBacked g
put_payment-AllBacked b f g id o there unpaid fresh named puts before = rw puts.result backed
  where
    new : lookup puts.payment.id f.payments ≡ none
    new = rw puts.drawn fresh

    backed : AllBacked (put_payment f id puts.next puts.payment)
    backed other found at = elim (Bool-cases (id == other)) [
      | inl same ↦
          let (key, entry, ids) = found_here f id puts.next puts.payment other found same at in
          rw (ids, entry)
            (unfold put_payment in
              Puts-IsBacked b f g id o puts named unpaid fresh (before id o there).each)
      | inr apart ↦
          let (entry, ids) = found_there f id puts.next puts.payment other found apart at in
          rw ids (
            unfold put_payment in
            other-IsBacked f.payments puts.payment _ found new (before other found entry))
    ]
