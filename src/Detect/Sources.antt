-- ===== src/Detect/Sources.antt =====
-- The three detectors: internal/detect/failedpayment.go, unpaidorder.go and overdueinvoice.go.
use rzp_rebound.Prelude.{
  String, ◌<>◌, Bool, not, ◌||◌, ◌==◌, Option, none, some, List, [], ◌∷◌, inl, inr, if◌then◌else◌,
  ℤ, pos, ◌-ℤ◌, ltb_ℤ, leb_ℤ, eqb_ℤ,
}
use rzp_rebound.Time.{add_time, unix}
use rzp_rebound.Razorpay.{
  Order, Payment, Invoice, Answer, Lister, order_status_created, payment_status_failed,
  invoice_status_issued, invoice_status_partial,
}
use rzp_rebound.RiskItem.{
  RiskItem, Signal, PayHandle, new_id, handle_kind_none, handle_kind_invoice,
}
use rzp_rebound.Policy.{source_failed_payment, source_unpaid_order, source_overdue_invoice}
use rzp_rebound.Detect.{Config, grace, sweep, customer_from_notes, customer_from_failed_payment}

abbrev no_signal : Signal
no_signal = record {
  failure_code = "";
  failure_reason = "";
  failure_source = "";
  failure_step = "";
  method = "";
  attempts = pos 0;
  email_status = "";
  sms_status = "";
}

abbrev no_handle : PayHandle
no_handle = record { kind = handle_kind_none; url = ""; id = "" }

-- The loop of newestFailed; `newest` is `none` until a failed payment was found.
unfoldable pub newest_from : Option Payment → List Payment → Option Payment
newest_from newest [] = newest
newest_from newest (payment ∷ payments) =
    newest_from
      (if not (payment.status == payment_status_failed) then newest else elim newest [
        | none ↦ some payment
        | some best ↦ if ltb_ℤ best.created_at payment.created_at then some payment else some best
      ])
      payments

-- `none` is the false of the pair that newestFailed returns.
unfoldable pub newest_failed : List Payment → Option Payment
newest_failed payments = newest_from none payments

unfoldable pub is_overdue_status : String → Bool
is_overdue_status status = status == invoice_status_issued || status == invoice_status_partial

-- The Unix second before which an invoice must have been issued to be overdue.
unfoldable pub cutoff_of : Config → ℤ
unfolding ◌-ℤ◌
cutoff_of cfg = unix (add_time cfg.now (pos 0 -ℤ grace cfg))

-- The digest of crypto/sha256 in hex is a parameter of the identity of an item.
module _ (sha256_hex : String → String) where
  unfoldable pub item_from_failed_payment : Order → Payment → RiskItem
  unfolding new_id
  item_from_failed_payment order payment = record {
    id = new_id sha256_hex source_failed_payment payment.id;
    source = source_failed_payment;
    source_id = payment.id;
    root_order_id = order.id;
    customer = customer_from_failed_payment payment order.notes;
    amount_paise = order.amount_paise;
    amount_paid_paise = order.amount_paid;
    amount_due_paise = order.amount_due;
    currency = order.currency;
    at_risk_since = payment.created_at;
    signal = record no_signal {
      failure_code = payment.error_code;
      failure_reason = payment.error_reason;
      failure_source = payment.error_source;
      failure_step = payment.error_step;
      method = payment.method;
      attempts = order.attempts;
    };
    pay_handle = no_handle;
  }

  -- What the walk over the orders adds for one of them: an item, an error, or neither.
  unfoldable pub failed_sighting :
      (String → Answer (List Payment)) → Order → Option RiskItem × Option String
  failed_sighting payments_of order =
      if leb_ℤ order.amount_due (pos 0) then (none, none) else elim (payments_of order.id) [
        | inl err ↦ (none, some ("read the payments on " <> (order.id <> (": " <> err))))
        | inr payments ↦ elim (newest_failed payments) [
          | none ↦ (none, none)
          | some failed ↦ (some (item_from_failed_payment order failed), none)
        ]
      ]

  -- FailedPaymentDetector.Detect after its sweep: the items, and the errors that are joined.
  unfoldable pub failed_from :
      (String → Answer (List Payment)) → List Order → List RiskItem × List String
  failed_from payments_of [] = ([], [])
  failed_from payments_of (order ∷ orders) =
      let (items, errs) = failed_from payments_of orders in
      let (item, err) = failed_sighting payments_of order in
      (
        elim item [ none ↦ items | some it ↦ it ∷ items ],
        elim err [ none ↦ errs | some e ↦ e ∷ errs ],
      )

  -- FailedPaymentDetector.Detect: the error of the sweep stands first.
  unfoldable pub detect_failed_payments :
      Config → Lister Order → (String → Answer (List Payment)) → List RiskItem × List String
  detect_failed_payments cfg list_orders payments_of =
      let (orders, sweep_err) = sweep cfg list_orders in
      let (items, errs) = failed_from payments_of orders in
      (items, elim sweep_err [ none ↦ errs | some e ↦ e ∷ errs ])

  unfoldable pub item_from_unpaid_order : Order → RiskItem
  unfolding new_id
  item_from_unpaid_order order = record {
    id = new_id sha256_hex source_unpaid_order order.id;
    source = source_unpaid_order;
    source_id = order.id;
    root_order_id = order.id;
    customer = customer_from_notes order.notes;
    amount_paise = order.amount_paise;
    amount_paid_paise = order.amount_paid;
    amount_due_paise = order.amount_due;
    currency = order.currency;
    at_risk_since = order.created_at;
    signal = record no_signal { attempts = order.attempts };
    pay_handle = no_handle;
  }

  -- The loop of UnpaidOrderDetector.Detect.
  unfoldable pub unpaid_from : List Order → List RiskItem
  unpaid_from [] = []
  unpaid_from (order ∷ orders) =
      let items = unpaid_from orders in
      if not (order.status == order_status_created)
      then items
      else if not (eqb_ℤ order.attempts (pos 0)) || leb_ℤ order.amount_due (pos 0)
      then items
      else item_from_unpaid_order order ∷ items

  -- UnpaidOrderDetector.Detect
  unfoldable pub detect_unpaid_orders : Config → Lister Order → List RiskItem × Option String
  detect_unpaid_orders cfg list_orders =
      let (orders, sweep_err) = sweep cfg list_orders in (unpaid_from orders, sweep_err)

  unfoldable pub item_from_overdue_invoice : Invoice → RiskItem
  unfolding new_id
  item_from_overdue_invoice invoice = record {
    id = new_id sha256_hex source_overdue_invoice invoice.id;
    source = source_overdue_invoice;
    source_id = invoice.id;
    root_order_id = invoice.order_id;
    customer = record {
      name = invoice.customer_details.name;
      email = invoice.customer_details.email;
      contact = invoice.customer_details.contact;
    };
    amount_paise = invoice.amount_paise;
    amount_paid_paise = invoice.amount_paid;
    amount_due_paise = invoice.amount_due;
    currency = invoice.currency;
    at_risk_since = invoice.issued_at;
    signal = record no_signal {
      email_status = invoice.email_status;
      sms_status = invoice.sms_status;
    };
    pay_handle = record { kind = handle_kind_invoice; url = invoice.short_url; id = invoice.id };
  }

  -- The loop of OverdueInvoiceDetector.Detect.
  unfoldable pub overdue_from : ℤ → List Invoice → List RiskItem
  overdue_from cutoff [] = []
  overdue_from cutoff (invoice ∷ invoices) =
      let items = overdue_from cutoff invoices in
      if not (is_overdue_status invoice.status)
      then items
      else if leb_ℤ invoice.amount_due (pos 0) || leb_ℤ invoice.issued_at (pos 0)
      then items
      else if leb_ℤ cutoff invoice.issued_at
      then items
      else item_from_overdue_invoice invoice ∷ items

  -- OverdueInvoiceDetector.Detect
  unfoldable pub detect_overdue_invoices : Config → Lister Invoice → List RiskItem × Option String
  detect_overdue_invoices cfg list_invoices =
      let (invoices, sweep_err) = sweep cfg list_invoices in
      (overdue_from (cutoff_of cfg) invoices, sweep_err)
