-- ===== src/Gateway/Payments.antt =====
-- internal/razorpay/fake.go: the payment attempts on an order, driven and seeded.
use rzp_rebound.Prelude.{
  String, ◌<>◌, ◌⊎◌, inl, inr, Bool, false, ◌||◌, ◌==◌, if◌then◌else◌, none, some, lookup, insert,
  ℤ, pos, leb_ℤ,
}
use rzp_rebound.Time.{Instant, unix}
use rzp_rebound.Cards.{failure_for, success_card, default_path}
use rzp_rebound.Razorpay.{Order, Payment, payment_status_failed}
use rzp_rebound.Gateway.{
  Fake, Built, FakeError, order_not_found, order_already_paid, unknown_card, no_reason, new_id,
  put_payment, order_status_attempted, order_status_paid, payment_status_captured,
  error_class_bad_request, error_source_gateway, error_step_payment_authorization,
}

-- A payment on an order before its outcome is known.
unfoldable pub payment_on : String → Instant → String → Order → String → Payment
payment_on id now order_id o status = record {
  id = id;
  order_id = order_id;
  amount_paise = o.amount_paise;
  currency = o.currency;
  status = status;
  method = "card";
  email = "";
  contact = "";
  created_at = unix now;
  error_code = "";
  error_description = "";
  error_source = "";
  error_step = "";
  error_reason = "";
}

unfoldable pub failed_for : Payment → String → String → Payment
failed_for p reason description = record p {
  error_code = error_class_bad_request;
  error_reason = reason;
  error_source = error_source_gateway;
  error_step = error_step_payment_authorization;
  error_description = description;
}

unfoldable pub authorizes : Built → Fake → String → Order → String → Bool
authorizes b f order_id o number =
    number == success_card b.cards || elim (lookup order_id f.recovers_after) [
      | none ↦ false
      | some recovers ↦ leb_ℤ recovers o.attempts
    ]

unfoldable pub captured : Built → Fake → Instant → String → Order → Fake × (FakeError ⊎ Payment)
captured b f now order_id o =
    let payment = payment_on (new_id b f "pay_") now order_id o payment_status_captured in
    (
      put_payment f order_id
          (record o {
            status = order_status_paid;
            amount_paid = o.amount_paise;
            amount_due = pos 0;
          })
          payment,
      inr payment,
    )

unfoldable pub declined :
    Built → Fake → Instant → String → Order → String → String → Fake × (FakeError ⊎ Payment)
declined b f now order_id o reason description =
    let payment =
      failed_for (payment_on (new_id b f "pay_") now order_id o payment_status_failed) reason
        description in
    (put_payment f order_id (record o { status = order_status_attempted }) payment, inr payment)

-- AttemptPayment on an order that is not paid
unfoldable pub attempt_unpaid :
    Built → Fake → Instant → String → Order → String → Fake × (FakeError ⊎ Payment)
attempt_unpaid b f now order_id o number =
    if authorizes b f order_id o number
    then captured b f now order_id o
    else elim (failure_for b.cards number) [
      | none ↦ (f, inl (unknown_card number))
      | some card ↦
          declined b f now order_id o card.error_code
            ("seeded by the fake gateway from " <> default_path)
    ]

-- f.AttemptPayment
unfoldable pub attempt_payment :
    Built → Fake → Instant → String → String → Fake × (FakeError ⊎ Payment)
attempt_payment b f now order_id number = elim (lookup order_id f.orders) [
  | none ↦ (f, inl (order_not_found order_id))
  | some o ↦
      if o.status == order_status_paid
      then (f, inl (order_already_paid order_id))
      else attempt_unpaid b f now order_id o number
]

unfoldable pub seed_failed_payment :
    Built → Fake → Instant → String → String → Fake × (FakeError ⊎ Payment)
seed_failed_payment b f now order_id reason = elim (lookup order_id f.orders) [
  | none ↦ (f, inl (order_not_found order_id))
  | some o ↦
      if o.status == order_status_paid
      then (f, inl (order_already_paid order_id))
      else if reason == ""
      then (f, inl no_reason)
      else declined b f now order_id o reason "seeded by the fake gateway"
]

unfoldable pub seed_recovers_after : Fake → String → ℤ → Fake
seed_recovers_after f order_id prior = record f {
  recovers_after = insert order_id prior f.recovers_after;
}
