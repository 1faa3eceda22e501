-- ===== src/Detect/Sightings.antt =====
-- Which debts the three detectors see, among the records that their sweep read.
use rzp_rebound.Time.{second, unix_epoch, unix, add_time}
use rzp_rebound.Prelude.{
  ℕ, suc, ◌+◌, ◌-◌, ◌*◌, ◌/◌, ◌≤◌, pos_part, negsuc, ◌≤ℤ◌, ◌+ℤ◌, ◌-ℤ◌, String, ◌≡◌, refl, ◌↔◌, ◌⊎◌,
  inl, inr, Bool, true, false, ◌==◌, ◌&&◌, eq_iff, false≢true, List, [], ◌∷◌, ℤ, pos, ◌<ℤ◌, ltb_ℤ,
  eqb_ℤ, arith, if◌then◌else◌,
}
use rzp_rebound.Razorpay.{
  Order, Invoice, Lister, order_status_created, invoice_status_issued, invoice_status_partial,
}
use rzp_rebound.RiskItem.{RiskItem}
use rzp_rebound.Detect.{Config, grace, sweep}
use rzp_rebound.Detect.Sources.{
  item_from_unpaid_order, unpaid_from, detect_unpaid_orders, is_overdue_status, cutoff_of,
  item_from_overdue_invoice, overdue_from, detect_overdue_invoices,
}

abbrev pub Member : {A : Type 0} → A → List A → Type 0
Member a [] = ⊥
Member a (x ∷ xs) = (a ≡ x) ⊎ Member a xs

-- Some record of the list is seen as the item (or gives rise to the error).
abbrev pub SeenIn : {A B : Type 0} → (A → B → Type 0) → B → List A → Type 0
SeenIn Sees item [] = ⊥
SeenIn Sees item (x ∷ xs) = Sees x item ⊎ SeenIn Sees item xs

-- A record that passes a test adds one item; the list of the others' items is left as it is.
added : (t : Bool) → RiskItem → List RiskItem → List RiskItem
added t found items = if t then found ∷ items else items

Member-added :
    (t : Bool) (item found : RiskItem) (items : List RiskItem)
    → Member item (added t found items) ↔ (((t ≡ true) × (item ≡ found)) ⊎ Member item items)
unfolding added
Member-added true item found items = (
  elim [ inl same ↦ inl (refl, same) | inr later ↦ inr later ],
  elim [ inl (t, same) ↦ inl same | inr later ↦ inr later ],
)
Member-added false item found items =
    (λ later. inr later, elim [ inl (t, same) ↦ absurd (false≢true t) | inr later ↦ later ])

grace_positive : (cfg : Config) → pos 0 <ℤ grace cfg
unfolding grace
grace_positive cfg = ground arith

-- Whole seconds up to an instant a period ago.
seconds_iff : (now n g : ℕ) → (suc n ≤ (now - g) / second) ↔ (((n + 1) * second + g) ≤ now)
seconds_iff now n g = (λ h. omega (arith, h), λ h. omega (arith, h))

cutoff_of_period :
    (now : ℕ) (issued_at period : ℤ)
    → pos 0 <ℤ issued_at
    → pos 0 <ℤ period
    → (issued_at <ℤ unix (add_time now (pos 0 -ℤ period)))
      ↔ (pos ((unix_epoch + pos_part issued_at + 1) * second) +ℤ period ≤ℤ pos now)
unfolding unix add_time ◌+ℤ◌ ◌-ℤ◌
cutoff_of_period now (pos n) (pos g) known low =
    let whole = seconds_iff now (unix_epoch + n) g in
    (λ h. ground (arith, h, whole), λ h. ground (arith, h, whole))
cutoff_of_period now (pos n) (negsuc g) known low = absurd (omega (arith, low))
cutoff_of_period now (negsuc n) period known low = absurd (omega (arith, known))

-- Issued before the cutoff, that is over the grace period ago.
cutoff_iff :
    (cfg : Config) (issued_at : ℤ)
    → pos 0 <ℤ issued_at
    → (issued_at <ℤ cutoff_of cfg)
      ↔ (pos ((unix_epoch + pos_part issued_at + 1) * second) +ℤ grace cfg ≤ℤ pos cfg.now)
unfolding cutoff_of
cutoff_iff cfg issued_at known =
    cutoff_of_period cfg.now issued_at (grace cfg) known (grace_positive cfg)

module _ (sha256_hex : String → String) where
  -- An order that was created, has had no attempt and still has an amount due.
  pub record Unpaid (order : Order) (item : RiskItem) : Type 0 where
    pub created : order.status ≡ order_status_created
    pub untried : order.attempts ≡ pos 0
    pub owed : pos 0 <ℤ order.amount_due
    pub sighting : item ≡ item_from_unpaid_order sha256_hex order

  -- An invoice that was issued or paid in part, at a known second that was over a whole grace
  -- period ago, and still has an amount due.
  pub record Overdue (cfg : Config) (invoice : Invoice) (item : RiskItem) : Type 0 where
    pub unsettled :
        (invoice.status ≡ invoice_status_issued) ⊎ (invoice.status ≡ invoice_status_partial)
    pub owed : pos 0 <ℤ invoice.amount_due
    pub issued : pos 0 <ℤ invoice.issued_at
    pub old :
        pos ((unix_epoch + pos_part invoice.issued_at + 1) * second) +ℤ grace cfg ≤ℤ pos cfg.now
    pub sighting : item ≡ item_from_overdue_invoice sha256_hex invoice

  is_unpaid : Order → Bool
  is_unpaid order =
      order.status == order_status_created
      && eqb_ℤ order.attempts (pos 0)
      && ltb_ℤ (pos 0) order.amount_due

  unpaid_from-cons :
      (order : Order) (orders : List Order)
      → unpaid_from sha256_hex (order ∷ orders)
        ≡ added
            (is_unpaid order)
            (item_from_unpaid_order sha256_hex order)
            (unpaid_from sha256_hex orders)
  unfolding unpaid_from is_unpaid added
  unpaid_from-cons order orders = ground arith

  Unpaid-is_unpaid :
      (order : Order) (item : RiskItem)
      → Unpaid order item
      → (is_unpaid order ≡ true) × (item ≡ item_from_unpaid_order sha256_hex order)
  unfolding is_unpaid
  Unpaid-is_unpaid order item u = (
    ground (arith, u.created, u.untried, u.owed, eq_iff order.status order_status_created),
    u.sighting,
  )

  is_unpaid-Unpaid :
      (order : Order) (item : RiskItem)
      → is_unpaid order ≡ true
      → item ≡ item_from_unpaid_order sha256_hex order
      → Unpaid order item
  unfolding is_unpaid
  is_unpaid-Unpaid order item u same = record {
    created = ground (arith, eq_iff order.status order_status_created);
    untried = ground arith;
    owed = ground arith;
    sighting = same;
  }

  unpaid_from_iff :
      (item : RiskItem) (orders : List Order)
      → Member item (unpaid_from sha256_hex orders) ↔ SeenIn Unpaid item orders
  unfolding unpaid_from
  unpaid_from_iff item [] = (λ m. m, λ m. m)
  unpaid_from_iff item (order ∷ orders) =
      let rest = unpaid_from_iff item orders in
      let found = item_from_unpaid_order sha256_hex order in
      let step = Member-added (is_unpaid order) item found (unpaid_from sha256_hex orders) in
      let cons = unpaid_from-cons order orders in
      (
        λ m. elim (step.0 (rw cons at m)) [
          | inl (t, same) ↦ inl (is_unpaid-Unpaid order item t same)
          | inr later ↦ inr (rest.0 later)
        ],
        elim [
          | inl u ↦ rw cons (step.1 (inl (Unpaid-is_unpaid order item u)))
          | inr later ↦ rw cons (step.1 (inr (rest.1 later)))
        ],
      )

  is_overdue : ℤ → Invoice → Bool
  is_overdue cutoff invoice =
      is_overdue_status invoice.status
      && ltb_ℤ (pos 0) invoice.amount_due
      && ltb_ℤ (pos 0) invoice.issued_at
      && ltb_ℤ invoice.issued_at cutoff

  overdue_from-cons :
      (cutoff : ℤ) (invoice : Invoice) (invoices : List Invoice)
      → overdue_from sha256_hex cutoff (invoice ∷ invoices)
        ≡ added
            (is_overdue cutoff invoice)
            (item_from_overdue_invoice sha256_hex invoice)
            (overdue_from sha256_hex cutoff invoices)
  unfolding overdue_from is_overdue added
  overdue_from-cons cutoff invoice invoices = ground arith

  Overdue-is_overdue :
      (cfg : Config) (invoice : Invoice) (item : RiskItem)
      → Overdue cfg invoice item
      → (is_overdue (cutoff_of cfg) invoice ≡ true)
        × (item ≡ item_from_overdue_invoice sha256_hex invoice)
  unfolding is_overdue is_overdue_status
  Overdue-is_overdue cfg invoice item o = (
    ground (
      arith,
      o.unsettled,
      o.owed,
      o.issued,
      (cutoff_iff cfg invoice.issued_at o.issued).1 o.old,
      eq_iff invoice.status invoice_status_issued,
      eq_iff invoice.status invoice_status_partial,
    ),
    o.sighting,
  )

  is_overdue-Overdue :
      (cfg : Config) (invoice : Invoice) (item : RiskItem)
      → is_overdue (cutoff_of cfg) invoice ≡ true
      → item ≡ item_from_overdue_invoice sha256_hex invoice
      → Overdue cfg invoice item
  unfolding is_overdue is_overdue_status
  is_overdue-Overdue cfg invoice item o same = record {
    unsettled = ground (
      arith,
      eq_iff invoice.status invoice_status_issued,
      eq_iff invoice.status invoice_status_partial,
    );
    owed = ground arith;
    issued = ground arith;
    old = (cutoff_iff cfg invoice.issued_at (ground arith)).0 (ground arith);
    sighting = same;
  }

  overdue_from_iff :
      (cfg : Config) (item : RiskItem) (invoices : List Invoice)
      → Member item (overdue_from sha256_hex (cutoff_of cfg) invoices)
        ↔ SeenIn (Overdue cfg) item invoices
  unfolding overdue_from
  overdue_from_iff cfg item [] = (λ m. m, λ m. m)
  overdue_from_iff cfg item (invoice ∷ invoices) =
      let rest = overdue_from_iff cfg item invoices in
      let found = item_from_overdue_invoice sha256_hex invoice in
      let items = overdue_from sha256_hex (cutoff_of cfg) invoices in
      let step = Member-added (is_overdue (cutoff_of cfg) invoice) item found items in
      let cons = overdue_from-cons (cutoff_of cfg) invoice invoices in
      (
        λ m. elim (step.0 (rw cons at m)) [
          | inl (t, same) ↦ inl (is_overdue-Overdue cfg invoice item t same)
          | inr later ↦ inr (rest.0 later)
        ],
        elim [
          | inl o ↦ rw cons (step.1 (inl (Overdue-is_overdue cfg invoice item o)))
          | inr later ↦ rw cons (step.1 (inr (rest.1 later)))
        ],
      )

  -- The items of the unpaid-order detector are those of the orders that its sweep read with the
  -- status created, no attempt and an amount due; its error is the sweep's.
  pub detect_unpaid_orders_iff :
      (cfg : Config) (list_orders : Lister Order)
      → let (items, err) = detect_unpaid_orders sha256_hex cfg list_orders in
        ((item : RiskItem) → Member item items ↔ SeenIn Unpaid item (sweep cfg list_orders).0)
        × (err ≡ (sweep cfg list_orders).1)
  unfolding detect_unpaid_orders
  detect_unpaid_orders_iff cfg list_orders =
      (λ item. unpaid_from_iff item (sweep cfg list_orders).0, refl)

  -- The items of the overdue-invoice detector are those of the invoices that its sweep read issued
  -- or paid in part, with an amount due, in a second that was over the whole grace
  -- period ago; its error is the sweep's.
  pub detect_overdue_invoices_iff :
      (cfg : Config) (list_invoices : Lister Invoice)
      → let (items, err) = detect_overdue_invoices sha256_hex cfg list_invoices in
        ((item : RiskItem)
          → Member item items ↔ SeenIn (Overdue cfg) item (sweep cfg list_invoices).0)
        × (err ≡ (sweep cfg list_invoices).1)
  unfolding detect_overdue_invoices
  detect_overdue_invoices_iff cfg list_invoices =
      (λ item. overdue_from_iff cfg item (sweep cfg list_invoices).0, refl)
