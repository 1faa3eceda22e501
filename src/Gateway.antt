-- ===== src/Gateway.antt =====
-- internal/razorpay/fake.go: the gateway that is kept in memory. The pseudo-random numbers are a
-- parameter, and the clock is the instant that a call is given. A pointer into a map is the entry
-- itself, put back changed. The lock is left out, since each call is one step.
pub mod Payments
pub mod Sound
pub mod Reached
pub mod Settled
pub mod Backed
pub mod Drawn
mod Examples
use Prim.Native.String.{slice}
use rzp_rebound.Prelude.{
  ℕ, zero, suc, ◌+◌, String, ◌<>◌, ◌⊎◌, inl, inr, Bool, true, false, not, ◌&&◌, ◌||◌, ◌==◌,
  if◌then◌else◌, Option, none, some, List, [], ◌∷◌, ◌++◌, Dict, lookup, insert, lookup_or, is_some,
  ℤ, pos, leb_ℤ, ◌+ℤ◌, wrap64, decimal,
}
use rzp_rebound.Time.{Instant, unix}
use rzp_rebound.Cards.{Card, Table, failure_for, success_card, default_path}
use rzp_rebound.Razorpay.{
  Order, Payment, PaymentLink, NotifyReceipt, CreatePaymentLinkRequest, order_status_created,
  payment_status_failed, medium_sms, medium_email,
}
use rzp_rebound.Razorpay.Codec.{
  CreateOrderRequest, with_currency, err_order_not_found, err_payment_not_found,
  err_payment_link_not_found, err_unsupported_medium, err_amount_not_positive,
}

abbrev pub order_status_attempted : String
order_status_attempted = "attempted"

abbrev pub order_status_paid : String
order_status_paid = "paid"

abbrev pub payment_status_captured : String
payment_status_captured = "captured"

abbrev payment_link_status_created : String
payment_link_status_created = "created"

abbrev pub error_class_bad_request : String
error_class_bad_request = "BAD_REQUEST_ERROR"

abbrev error_source_gateway : String
error_source_gateway = "gateway"

abbrev error_step_payment_authorization : String
error_step_payment_authorization = "payment_authorization"

abbrev err_order_already_paid : String
err_order_already_paid = "razorpay: order is already paid"

abbrev err_unknown_card : String
err_unknown_card = "razorpay: card is not in the test-card table"

abbrev id_alphabet : String
id_alphabet = "abcdefghijklmnopqrstuvwxyzABCDEFGHIJKLMNOPQRSTUVWXYZ0123456789"

abbrev id_length : ℕ
id_length = 14

-- `drawn` is how often rng.Intn was called.
pub record Fake : Type 0 where
  pub drawn : ℕ
  pub orders : Dict Order
  pub payments_by_order : Dict (List String)
  pub payments : Dict Payment
  pub links : Dict PaymentLink
  pub recovers_after : Dict ℤ

abbrev pub new_fake : Fake
new_fake = record {
  drawn = 0;
  orders = [];
  payments_by_order = [];
  payments = [];
  links = [];
  recovers_after = [];
}

-- What a Fake is built with: `intn` answers the n-th call of rng.Intn(62).
pub record Built : Type 0 where
  pub intn : ℕ → ℕ
  pub cards : Table

pub data FakeError : Type 0 where
  amount_not_positive : ℤ → FakeError
  order_not_found : String → FakeError
  payment_not_found : String → FakeError
  link_not_found : String → FakeError
  unsupported_medium : String → FakeError
  order_already_paid : String → FakeError
  unknown_card : String → FakeError
  no_reason : FakeError

-- err.Error(); `quoted` is a text under the verb %q.
unfoldable pub fake_error_text : (String → String) → FakeError → String
fake_error_text quoted (amount_not_positive n) =
    err_amount_not_positive <> (": got " <> (decimal n <> " paise"))
fake_error_text quoted (order_not_found id) = err_order_not_found <> (": " <> id)
fake_error_text quoted (payment_not_found id) = err_payment_not_found <> (": " <> id)
fake_error_text quoted (link_not_found id) = err_payment_link_not_found <> (": " <> id)
fake_error_text quoted (unsupported_medium m) = err_unsupported_medium <> (": " <> quoted m)
fake_error_text quoted (order_already_paid id) = err_order_already_paid <> (": " <> id)
fake_error_text quoted (unknown_card number) = err_unknown_card <> (": " <> number)
fake_error_text quoted no_reason =
    "razorpay: a seeded failure needs an error reason, or nothing downstream can classify it"

id_characters : (ℕ → ℕ) → ℕ → ℕ → String
id_characters intn n zero = ""
id_characters intn n (suc left) =
    slice id_alphabet (intn n) (suc (intn n)) <> id_characters intn (suc n) left

-- f.newID(prefix)
unfoldable pub new_id : Built → Fake → String → String
unfolding id_characters
new_id b f prefix = prefix <> id_characters b.intn f.drawn id_length

abbrev pub drawn_id : Fake → Fake
drawn_id f = record f { drawn = f.drawn + id_length }

unfoldable pub create_order :
    Built → Fake → Instant → CreateOrderRequest → Fake × (FakeError ⊎ Order)
create_order b f now req =
    if leb_ℤ req.amount_paise (pos 0)
    then (f, inl (amount_not_positive req.amount_paise))
    else (let id = new_id b f "order_" in
        let order : Order = record {
          id = id;
          amount_paise = req.amount_paise;
          amount_paid = pos 0;
          amount_due = req.amount_paise;
          currency = with_currency req.currency;
          receipt = req.receipt;
          status = order_status_created;
          attempts = pos 0;
          created_at = unix now;
          notes = req.notes;
        } in
        (record (drawn_id f) { orders = insert id order f.orders }, inr order))

unfoldable pub fetch_order : Fake → String → FakeError ⊎ Order
fetch_order f id = elim (lookup id f.orders) [ none ↦ inl (order_not_found id) | some o ↦ inr o ]

-- What the loop over the ids of the payments of an order collects. `none` is the panic of a nil
-- pointer, for an id that has no payment.
unfoldable pub collect : Dict Payment → List String → Option (List Payment)
collect payments [] = some []
collect payments (id ∷ ids) = elim (lookup id payments) [
  | none ↦ none
  | some p ↦ elim (collect payments ids) [ none ↦ none | some ps ↦ some (p ∷ ps) ]
]

-- f.paymentsByOrder[orderID]
unfoldable pub payment_ids : Fake → String → List String
unfolding lookup_or
payment_ids f id = lookup_or [] id f.payments_by_order

unfoldable pub list_payments_for_order : Fake → String → FakeError ⊎ Option (List Payment)
list_payments_for_order f id = elim (lookup id f.orders) [
  | none ↦ inl (order_not_found id)
  | some o ↦ inr (collect f.payments (payment_ids f id))
]

unfoldable pub fetch_payment : Fake → String → FakeError ⊎ Payment
fetch_payment f id = elim (lookup id f.payments) [
  | none ↦ inl (payment_not_found id)
  | some p ↦ inr p
]

unfoldable pub create_payment_link :
    Built → Fake → Instant → CreatePaymentLinkRequest → Fake × (FakeError ⊎ PaymentLink)
create_payment_link b f now req =
    if leb_ℤ req.amount_paise (pos 0)
    then (f, inl (amount_not_positive req.amount_paise))
    else (let id = new_id b f "plink_" in
        let link : PaymentLink = record {
          id = id;
          short_url = "https://pay.invalid/" <> id;
          status = payment_link_status_created;
          amount_paise = req.amount_paise;
          currency = with_currency req.currency;
          reference_id = req.reference_id;
          created_at = unix now;
        } in
        (record (drawn_id f) { links = insert id link f.links }, inr link))

unfoldable pub resend_notification : Fake → Instant → String → String → FakeError ⊎ NotifyReceipt
resend_notification f now link_id medium =
    if not (medium == medium_sms) && not (medium == medium_email)
    then inl (unsupported_medium medium)
    else if not (is_some (lookup link_id f.links))
    then inl (link_not_found link_id)
    else inr (record { link_id = link_id; medium = medium; accepted = true; requested_at = now })

-- order.Attempts++
unfoldable pub one_more : ℤ → ℤ
unfolding wrap64 ◌+ℤ◌
one_more n = wrap64 (n +ℤ pos 1)

-- The end of AttemptPayment and SeedFailedPayment: the payment and the changed order go down.
unfoldable pub put_payment : Fake → String → Order → Payment → Fake
put_payment f id o p = record (drawn_id f) {
  orders = insert id (record o { attempts = one_more o.attempts }) f.orders;
  payments = insert p.id p f.payments;
  payments_by_order = insert id (payment_ids f id ++ p.id ∷ []) f.payments_by_order;
}
