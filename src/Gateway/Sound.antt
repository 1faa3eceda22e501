-- ===== src/Gateway/Sound.antt =====
-- The orders of the gateway that is kept in memory: how their status, amounts and attempts agree
-- with the payments that were made on them.
use rzp_rebound.Prelude.{
  ℕ, suc, String, ◌≡◌, ◌≢◌, ◌⊎◌, inl, inr, sym, ◌∙◌, ap, true, false, ◌==◌, if◌then◌else◌, none,
  some, List, [], ◌∷◌, ◌++◌, All, All-append, length, length-append, Dict, insert, lookup,
  lookup-insert, is_some, eq_iff, ==_refl, Bool-cases, lookup_or, arith, pos, ◌<ℤ◌, ◌+ℤ◌, wrap64,
}
use rzp_rebound.Razorpay.{Order, Payment, order_status_created}
use rzp_rebound.Gateway.{
  Fake, one_more, payment_ids, put_payment, order_status_attempted, order_status_paid,
}

-- How far an order has come, with the ids of its payments.
abbrev pub Stage : Order → List String → Type 0
Stage o ids =
    ((o.status ≡ order_status_created)
      × (o.amount_paid ≡ pos 0)
      × (o.amount_due ≡ o.amount_paise)
      × (ids ≡ []))
    ⊎ ((o.status ≡ order_status_attempted)
        × (o.amount_paid ≡ pos 0)
        × (o.amount_due ≡ o.amount_paise)
        × (ids ≢ []))
    ⊎ ((o.status ≡ order_status_paid)
        × (o.amount_paid ≡ o.amount_paise)
        × (o.amount_due ≡ pos 0)
        × (ids ≢ []))

pub record IsSoundOrder (payments : Dict Payment) (ids : List String) (id : String) (o : Order)
    : Type 0 where
  pub named : o.id ≡ id
  pub positive : pos 0 <ℤ o.amount_paise
  pub counted : o.attempts ≡ wrap64 (pos (length ids))
  pub stage : Stage o ids
  pub kept : All (λ pid. is_some (lookup pid payments) ≡ true) ids

pub record IsSound (f : Fake) : Type 0 where
  pub sound :
      (id : String) (o : Order)
      → lookup id f.orders ≡ some o
      → IsSoundOrder f.payments (payment_ids f id) id o
  pub unknown : (id : String) → lookup id f.orders ≡ none → payment_ids f id ≡ []

one_more_wraps : (n : ℕ) → one_more (wrap64 (pos n)) ≡ wrap64 (pos (suc n))
unfolding one_more wrap64 ◌+ℤ◌
one_more_wraps n = ground arith

append-ne : (ids : List String) (id : String) → ids ++ id ∷ [] ≢ []
append-ne [] id = λ e. cc
append-ne (x ∷ ids) id = λ e. cc

kept_mono :
    (payments : Dict Payment) (key : String) (p : Payment) (ids : List String)
    → All (λ pid. is_some (lookup pid payments) ≡ true) ids
    → All (λ pid. is_some (lookup pid (insert key p payments)) ≡ true) ids
kept_mono payments key p [] h = tt
kept_mono payments key p (x ∷ ids) h =
    (ground (arith, lookup-insert key x p payments), kept_mono payments key p ids h.1)

-- What an attempt leaves of the order: all that it was, or paid in full.
abbrev pub Moved : Order → Order → Type 0
Moved o next =
    (next.id ≡ o.id)
    × (next.amount_paise ≡ o.amount_paise)
    × (next.attempts ≡ o.attempts)
    × (((next.status ≡ order_status_attempted)
          × (next.amount_paid ≡ o.amount_paid)
          × (next.amount_due ≡ o.amount_due))
        ⊎ ((next.status ≡ order_status_paid)
            × (next.amount_paid ≡ o.amount_paise)
            × (next.amount_due ≡ pos 0)))

Moved-Stage :
    (o next : Order) (ids more : List String)
    → o.status ≢ order_status_paid
    → Moved o next
    → more ≢ []
    → Stage o ids
    → Stage next more
Moved-Stage o next ids more unpaid moved grown stage = ground arith

Moved-IsSoundOrder :
    (f : Fake) (id : String) (o next : Order) (p : Payment)
    → o.status ≢ order_status_paid
    → Moved o next
    → IsSoundOrder f.payments (payment_ids f id) id o
    → IsSoundOrder
        (insert p.id p f.payments)
        (payment_ids f id ++ p.id ∷ [])
        id
        (record next { attempts = one_more next.attempts })
Moved-IsSoundOrder f id o next p unpaid moved before = record {
  named = moved.0 ∙ before.named;
  positive = ground arith;
  counted =
      ap one_more (moved.2 ∙ before.counted)
      ∙ one_more_wraps (length ids)
      ∙ ap (λ n. wrap64 (pos n)) (omega (arith, length-append ids (p.id ∷ [])));
  stage = Moved-Stage o next ids _ unpaid moved (append-ne ids p.id) before.stage;
  kept =
      All-append _ ids (p.id ∷ []) (kept_mono f.payments p.id p ids before.kept)
        (ground (arith, lookup-insert p.id p.id p f.payments, ==_refl p.id), tt);
}
  where
    ids : List String
    ids = payment_ids f id

payment_ids-put :
    (f : Fake) (id : String) (o : Order) (p : Payment) (other : String)
    → payment_ids (put_payment f id o p) other
      ≡ (if id == other then payment_ids f id ++ p.id ∷ [] else payment_ids f other)
unfolding payment_ids put_payment lookup_or
payment_ids-put f id o p other =
    ground (arith, lookup-insert id other (payment_ids f id ++ p.id ∷ []) f.payments_by_order)

other-IsSoundOrder :
    (f : Fake) (ids : List String) (p : Payment) (id : String) (o : Order)
    → IsSoundOrder f.payments ids id o
    → IsSoundOrder (insert p.id p f.payments) ids id o
other-IsSoundOrder f ids p id o before = record {
  named = before.named;
  positive = before.positive;
  counted = before.counted;
  stage = before.stage;
  kept = kept_mono f.payments p.id p ids before.kept;
}

-- The entry that a put payment leaves is the changed order, with its payments one longer.
pub found_here :
    (f : Fake) (id : String) (next : Order) (p : Payment) (other : String) (found : Order)
    → (id == other) ≡ true
    → lookup other (put_payment f id next p).orders ≡ some found
    → (other ≡ id)
      × (found ≡ record next { attempts = one_more next.attempts })
      × (payment_ids (put_payment f id next p) other ≡ payment_ids f id ++ p.id ∷ [])
unfolding put_payment
found_here f id next p other found same at =
    let after =
      lookup-insert id other (record next { attempts = one_more next.attempts }) f.orders in
    let ids = payment_ids-put f id next p other in
    let hit : (if id == other
          then some (record next { attempts = one_more next.attempts })
          else lookup other f.orders)
        ≡ some found =
      sym after ∙ at in
    (sym ((eq_iff id other).0 same), ground (arith, hit, same), ground (arith, ids, same))

pub found_there :
    (f : Fake) (id : String) (next : Order) (p : Payment) (other : String) (found : Order)
    → (id == other) ≡ false
    → lookup other (put_payment f id next p).orders ≡ some found
    → (lookup other f.orders ≡ some found)
      × (payment_ids (put_payment f id next p) other ≡ payment_ids f other)
unfolding put_payment
found_there f id next p other found apart at =
    let after =
      lookup-insert id other (record next { attempts = one_more next.attempts }) f.orders in
    let ids = payment_ids-put f id next p other in
    (ground (arith, after, at, apart), ground (arith, ids, apart))

missing_there :
    (f : Fake) (id : String) (next : Order) (p : Payment) (other : String)
    → lookup other (put_payment f id next p).orders ≡ none
    → (lookup other f.orders ≡ none)
      × (payment_ids (put_payment f id next p) other ≡ payment_ids f other)
unfolding put_payment
missing_there f id next p other at =
    let after =
      lookup-insert id other (record next { attempts = one_more next.attempts }) f.orders in
    let ids = payment_ids-put f id next p other in
    (ground (arith, after, at), ground (arith, ids, after, at))

pub put_payment-IsSound :
    (f : Fake) (id : String) (o next : Order) (p : Payment)
    → lookup id f.orders ≡ some o
    → o.status ≢ order_status_paid
    → Moved o next
    → IsSound f
    → IsSound (put_payment f id next p)
put_payment-IsSound f id o next p there unpaid moved before = record {
  sound = sound;
  unknown = unknown;
}
  where
    sound :
        (other : String) (found : Order)
        → lookup other (put_payment f id next p).orders ≡ some found
        → IsSoundOrder
            (put_payment f id next p).payments
            (payment_ids (put_payment f id next p) other)
            other
            found
    sound other found at = elim (Bool-cases (id == other)) [
      | inl same ↦
          let (key, entry, ids) = found_here f id next p other found same at in
          rw (ids, entry, key)
            (unfold put_payment in
              Moved-IsSoundOrder f id o next p unpaid moved (before.sound id o there))
      | inr apart ↦
          let (entry, ids) = found_there f id next p other found apart at in
          rw ids (
            unfold put_payment in
            other-IsSoundOrder f _ p other found (before.sound other found entry))
    ]

    unknown :
        (other : String)
        → lookup other (put_payment f id next p).orders ≡ none
        → payment_ids (put_payment f id next p) other ≡ []
    unknown other missing =
        let (entry, ids) = missing_there f id next p other missing in
        ids ∙ before.unknown other entry
