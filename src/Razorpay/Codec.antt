-- ===== src/Razorpay/Codec.antt =====
-- What the calls of internal/razorpay/client.go and invoices.go share: their errors, the reading of
-- what a response says, and JSON, which is a parameter, as is the escaping of a path.
use rzp_rebound.Prelude.{
  String, ◌<>◌, ◌⊎◌, inl, inr, Bool, true, false, ◌&&◌, ◌||◌, ◌==◌, if◌then◌else◌, Option, none,
  some, List, [], ◌∷◌, ℤ, pos, leb_ℤ, eqb_ℤ, decimal,
}
use rzp_rebound.Razorpay.{
  ApiError, CallError, Order, Payment, Invoice, ListOptions, Notes, PaymentLink,
  CreatePaymentLinkRequest,
}
use rzp_rebound.Razorpay.Client.{Exchange}

abbrev pub method_get : String
method_get = "GET"

abbrev pub method_post : String
method_post = "POST"

abbrev pub description_missing_resource : String
description_missing_resource = "The id provided does not exist"

abbrev pub err_order_not_found : String
err_order_not_found = "razorpay: order not found"

abbrev pub err_payment_not_found : String
err_payment_not_found = "razorpay: payment not found"

abbrev pub err_payment_link_not_found : String
err_payment_link_not_found = "razorpay: payment link not found"

abbrev pub err_invoice_not_found : String
err_invoice_not_found = "razorpay: invoice not found"

abbrev pub err_unsupported_medium : String
err_unsupported_medium = "razorpay: medium is not sms or email"

abbrev pub err_amount_not_positive : String
err_amount_not_positive = "razorpay: amount must be positive"

pub record CreateOrderRequest : Type 0 where
  pub amount_paise : ℤ
  pub currency : String
  pub receipt : String
  pub notes : Notes

-- The encoders and decoders of JSON, with the text of their error; a decoder of a notification
-- answers the field `success`, and one of a list `none` for a list that is not there.
pub record Codec : Type 0 where
  pub path_escape : String → String
  pub trim_space : String → String
  pub encode_order : CreateOrderRequest → String ⊎ String
  pub encode_link : CreatePaymentLinkRequest → String ⊎ String
  pub decode_order : String → String ⊎ Order
  pub decode_payment : String → String ⊎ Payment
  pub decode_payments : String → String ⊎ Option (List Payment)
  pub decode_orders : String → String ⊎ Option (List Order)
  pub decode_invoices : String → String ⊎ Option (List Invoice)
  pub decode_link : String → String ⊎ PaymentLink
  pub decode_invoice : String → String ⊎ Invoice
  pub decode_notify : String → String ⊎ Option Bool

-- What a call comes to, with what the client did.
abbrev pub Result : Type 0 → Type 0
Result A = List Exchange × (CallError ⊎ A)

-- An error of the arguments, before anything is sent.
abbrev pub unsent : {A : Type 0} → String → Option String → Result A
unsent text sentinel =
    ([], inl (record { exhausted = false; not_found = sentinel; answer = none; text = text }))

unfoldable pub is_missing : ApiError → Bool
is_missing e =
    eqb_ℤ e.status_code (pos 404)
    || (eqb_ℤ e.status_code (pos 400) && (e.description == description_missing_resource))

-- mapNotFound
unfoldable pub map_not_found : CallError → String → String → CallError
map_not_found e sentinel id = elim e.answer [
  | none ↦ e
  | some api ↦
      if is_missing api
      then record e {
        not_found = some sentinel;
        text = sentinel <> (": " <> (id <> (": " <> e.text)));
      }
      else e
]

abbrev pub mapped : {A : Type 0} → String → String → Result A → Result A
mapped sentinel id (done, inl e) = (done, inl (map_not_found e sentinel id))
mapped sentinel id (done, inr value) = (done, inr value)

-- The `accepted` of a receipt.
abbrev pub taken : Option Bool → Bool
taken none = true
taken (some success) = success

-- The items of a list, the empty list where there is none.
abbrev pub items_of : {A : Type 0} → Result (Option (List A)) → Result (List A)
items_of (done, inl e) = (done, inl e)
items_of (done, inr none) = (done, inr [])
items_of (done, inr (some items)) = (done, inr items)

abbrev pub with_currency : String → String
with_currency currency = if currency == "" then "INR" else currency

-- A list of parameters, joined in the order of their names.
abbrev pub query_text : List (String × ℤ) → String
query_text [] = ""
query_text ((name, n) ∷ rest) =
    let more = query_text rest in
    let here = if leb_ℤ n (pos 0) then "" else name <> ("=" <> decimal n) in
    if here == "" then more else if more == "" then here else here <> ("&" <> more)

-- opts.query
unfoldable pub query : ListOptions → String
unfolding decimal
query o =
    let text =
      query_text (("count", o.count) ∷ ("from", o.from) ∷ ("skip", o.skip) ∷ ("to", o.to) ∷ []) in
    if text == "" then "" else "?" <> text
