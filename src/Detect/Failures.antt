-- ===== src/Detect/Failures.antt =====
-- Which debts the failed-payment detector sees, and which errors it reports.
use rzp_rebound.Prelude.{
  String, ◌<>◌, ◌≡◌, refl, ap, sym, ◌↔◌, ◌⊎◌, inl, inr, false, Option, none, some, List, [], ◌∷◌,
  pos, ◌<ℤ◌, leb_ℤ, arith, Bool-cases, Option-cases,
}
use rzp_rebound.Razorpay.{Order, Payment, Answer, Lister}
use rzp_rebound.RiskItem.{RiskItem}
use rzp_rebound.Detect.{Config, sweep}
use rzp_rebound.Detect.Sightings.{Member, SeenIn}
use rzp_rebound.Detect.Sources.{
  newest_failed, item_from_failed_payment, failed_sighting, failed_from, detect_failed_payments,
}

abbrev pub one_more : {A : Type 0} → Option A → List A → List A
one_more none xs = xs
one_more (some x) xs = x ∷ xs

Member-one_more :
    {A : Type 0} (a : A) (o : Option A) (xs : List A)
    → Member a (one_more o xs) ↔ ((o ≡ some a) ⊎ Member a xs)
Member-one_more a none xs = (λ m. inr m, elim [ inl e ↦ cc | inr m ↦ m ])
Member-one_more a (some x) xs = (
  elim [ inl e ↦ inl (ap some (sym e)) | inr m ↦ inr m ],
  elim [ inl e ↦ inl cc | inr m ↦ inr m ],
)

-- A list with one more entry, of which each part is known.
Member-one_more_iff :
    {A : Type 0} {P Q : Type 0} (a : A) (o : Option A) (xs : List A)
    → (o ≡ some a) ↔ P
    → Member a xs ↔ Q
    → Member a (one_more o xs) ↔ (P ⊎ Q)
Member-one_more_iff a o xs first rest =
    let both = Member-one_more a o xs in
    (
      λ m. elim (both.0 m) [ inl e ↦ inl (first.0 e) | inr m ↦ inr (rest.0 m) ],
      elim [ inl p ↦ both.1 (inl (first.1 p)) | inr q ↦ both.1 (inr (rest.1 q)) ],
    )

module _ (sha256_hex : String → String) (payments_of : String → Answer (List Payment)) where
  -- An order with an amount due whose payments can be read and have a newest failed one.
  pub record Failed (order : Order) (item : RiskItem) : Type 0 where
    pub owed : pos 0 <ℤ order.amount_due
    pub payments : List Payment
    pub read : payments_of order.id ≡ inr payments
    pub payment : Payment
    pub newest : newest_failed payments ≡ some payment
    pub sighting : item ≡ item_from_failed_payment sha256_hex order payment

  -- An order with an amount due whose payments cannot be read.
  pub record Unreadable (order : Order) (text : String) : Type 0 where
    pub owed : pos 0 <ℤ order.amount_due
    pub error : String
    pub refused : payments_of order.id ≡ inl error
    pub report : text ≡ "read the payments on " <> (order.id <> (": " <> error))

  Read : Order → Option RiskItem × Option String → Type 0
  Read order (item, err) =
      ((i : RiskItem) → (item ≡ some i) ↔ Failed order i)
      × ((text : String) → (err ≡ some text) ↔ Unreadable order text)

  Read-none :
      (order : Order)
      → ((i : RiskItem) → ¬ Failed order i)
      → ((text : String) → ¬ Unreadable order text)
      → Read order (none, none)
  unfolding Read
  Read-none order no_item no_error =
      (λ i. (λ e. cc, λ f. absurd (no_item i f)), λ text. (λ e. cc, λ u. absurd (no_error text u)))

  Read-error :
      (order : Order) (err : String)
      → pos 0 <ℤ order.amount_due
      → payments_of order.id ≡ inl err
      → Read order (none, some ("read the payments on " <> (order.id <> (": " <> err))))
  unfolding Read
  Read-error order err owed refused = (
    λ i. (λ e. cc, λ f. ground (arith, refused, f.read)),
    λ text. (
      λ e. record { owed = owed; error = err; refused = refused; report = cc },
      λ u.
          let same : u.error ≡ err = ground (arith, refused, u.refused) in
          rw (← same) (ap some (sym u.report)),
    ),
  )

  Read-item :
      (order : Order) (payments : List Payment) (payment : Payment)
      → pos 0 <ℤ order.amount_due
      → payments_of order.id ≡ inr payments
      → newest_failed payments ≡ some payment
      → Read order (some (item_from_failed_payment sha256_hex order payment), none)
  unfolding Read
  Read-item order payments payment owed read newest = (
    λ i. (
      λ e. record {
        owed = owed;
        payments = payments;
        read = read;
        payment = payment;
        newest = newest;
        sighting = cc;
      },
      λ f.
          let listed : f.payments ≡ payments = ground (arith, read, f.read) in
          let same : f.payment ≡ payment = ground (arith, listed, newest, f.newest) in
          rw (← same) (ap some (sym f.sighting)),
    ),
    λ text. (λ e. cc, λ u. ground (arith, read, u.refused)),
  )

  none-Failed :
      (order : Order) (payments : List Payment)
      → payments_of order.id ≡ inr payments
      → newest_failed payments ≡ none
      → (i : RiskItem) → ¬ Failed order i
  none-Failed order payments e empty i f =
      let listed : f.payments ≡ payments = ground (arith, e, f.read) in
      ground (arith, listed, empty, f.newest)

  -- What the walk does at an order, for each answer of the payments call.
  failed_sighting-Read : (order : Order) → Read order (failed_sighting sha256_hex payments_of order)
  failed_sighting-Read order = elim (Bool-cases (leb_ℤ order.amount_due (pos 0))) [
    | inl settled ↦
        let same : failed_sighting sha256_hex payments_of order ≡ (none, none) =
          unfold failed_sighting in ground arith in
        rw same (Read-none order (λ i f. ground (arith, f.owed)) (λ text u. ground (arith, u.owed)))
    | inr due ↦ walk (ground arith) due (payments_of order.id) refl
  ]
    where
      walk :
          pos 0 <ℤ order.amount_due
          → leb_ℤ order.amount_due (pos 0) ≡ false
          → (answer : Answer (List Payment)) → payments_of order.id ≡ answer
          → Read order (failed_sighting sha256_hex payments_of order)
      walk owed due (inl err) e =
          let same : failed_sighting sha256_hex payments_of order
              ≡ (none, some ("read the payments on " <> (order.id <> (": " <> err)))) =
            unfold failed_sighting in rw (due, e) refl in
          rw same (Read-error order err owed e)
      walk owed due (inr payments) e = elim (Option-cases (newest_failed payments)) [
        | inl empty ↦
            let same : failed_sighting sha256_hex payments_of order ≡ (none, none) =
              unfold failed_sighting in rw (due, e, empty) refl in
            rw same (
              Read-none order (λ i f. none-Failed order payments e empty i f)
                (λ text u. ground (arith, e, u.refused)))
        | inr (payment, newest) ↦
            let same : failed_sighting sha256_hex payments_of order
                ≡ (some (item_from_failed_payment sha256_hex order payment), none) =
              unfold failed_sighting in rw (due, e, newest) refl in
            rw same (Read-item order payments payment owed e newest)
      ]

  failed_from-cons :
      (order : Order) (orders : List Order)
      → let (item, err) = failed_sighting sha256_hex payments_of order in
        let (items, errs) = failed_from sha256_hex payments_of orders in
        failed_from sha256_hex payments_of (order ∷ orders)
        ≡ (one_more item items, one_more err errs)
  unfolding failed_from
  failed_from-cons order orders = ground arith

  failed_from-Read :
      (orders : List Order)
      → let (items, errs) = failed_from sha256_hex payments_of orders in
        ((i : RiskItem) → Member i items ↔ SeenIn Failed i orders)
        × ((text : String) → Member text errs ↔ SeenIn Unreadable text orders)
  unfolding Read
  failed_from-Read [] = unfold failed_from in (λ i. (λ m. m, λ m. m), λ text. (λ m. m, λ m. m))
  failed_from-Read (order ∷ orders) =
      let (items, errs) = failed_from-Read orders in
      let (item, err) = failed_sighting-Read order in
      rw (failed_from-cons order orders) (
        λ i. Member-one_more_iff i _ _ (item i) (items i),
        λ text. Member-one_more_iff text _ _ (err text) (errs text),
      )

  detect_failed_payments_lem :
      (cfg : Config) (list_orders : Lister Order)
      → let (orders, sweep_err) = sweep cfg list_orders in
        let (items, errs) = failed_from sha256_hex payments_of orders in
        detect_failed_payments sha256_hex cfg list_orders payments_of
        ≡ (items, one_more sweep_err errs)
  unfolding detect_failed_payments
  detect_failed_payments_lem cfg list_orders = ground arith

  -- The failed-payment detector sees exactly the orders that its sweep read with an amount due and
  -- whose payments can be read and have a newest failed one; it reports the error of the sweep and
  -- one for each order with an amount due whose payments cannot be read, and nothing else.
  pub detect_failed_payments_iff :
      (cfg : Config) (list_orders : Lister Order)
      → let (orders, sweep_err) = sweep cfg list_orders in
        let (items, errs) = detect_failed_payments sha256_hex cfg list_orders payments_of in
        ((i : RiskItem) → Member i items ↔ SeenIn Failed i orders)
        × ((text : String)
            → Member text errs ↔ ((sweep_err ≡ some text) ⊎ SeenIn Unreadable text orders))
  detect_failed_payments_iff cfg list_orders =
      let (items, errs) = failed_from-Read (sweep cfg list_orders).0 in
      rw (detect_failed_payments_lem cfg list_orders)
        (items, λ text. Member-one_more_iff text _ _ (λ e. e, λ e. e) (errs text))
