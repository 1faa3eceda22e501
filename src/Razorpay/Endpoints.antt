-- ===== src/Razorpay/Endpoints.antt =====
-- The calls of internal/razorpay/client.go and invoices.go that the engine, the detectors and the
-- retry engine make: each checks its arguments, sends one request and reads the response. JSON and
-- the escaping of a path are parameters.
use rzp_rebound.Prelude.{
  String, ◌<>◌, ◌⊎◌, inl, inr, Bool, not, ◌&&◌, ◌==◌, if◌then◌else◌, Option, none, some, List, [],
  ◌++◌, pos, leb_ℤ, decimal,
}
use rzp_rebound.Razorpay.{
  Order, Payment, Invoice, ListOptions, PaymentLink, NotifyReceipt, CreatePaymentLinkRequest,
  medium_sms, medium_email,
}
use rzp_rebound.Razorpay.Client.{Client, Wire, Exchange, plain_error, redact_err}
use rzp_rebound.Razorpay.Retry.{Reading, do_with}
use rzp_rebound.Razorpay.Codec.{
  Codec, CreateOrderRequest, Result, err_amount_not_positive, err_invoice_not_found,
  err_order_not_found, err_payment_link_not_found, err_payment_not_found, err_unsupported_medium,
  items_of, mapped, method_get, method_post, query, taken, unsent, with_currency,
}

module _ (c : Client) (w : Wire) (k : Codec) (es : List Exchange) where
  -- c.do and c.doWith, where the payload may fail to encode
  unfoldable pub send :
      {A : Type 0}
      → String
      → String
      → Option (String ⊎ String)
      → (String → String ⊎ A)
      → Option A
      → Result A
  send {A = A} method path payload decode empty_body =
      let reading : Reading A = record {
        decode = decode;
        empty_body = empty_body;
        trim_space = k.trim_space;
      } in
      elim payload [
        | none ↦ do_with c w (record { method = method; path = path; payload = none }) reading es
        | some (inl e) ↦ (
          [],
          inl (
              redact_err c w
                (plain_error ("razorpay: encode " <> (method <> (" " <> (path <> (": " <> e))))))),
        )
        | some (inr text) ↦
            do_with c w (record { method = method; path = path; payload = some text }) reading es
      ]

  unfoldable pub create_order : CreateOrderRequest → Result Order
  create_order req =
      if leb_ℤ req.amount_paise (pos 0)
      then unsent (err_amount_not_positive <> (": got " <> (decimal req.amount_paise <> " paise")))
          none
      else send method_post "/orders"
          (some (k.encode_order (record req { currency = with_currency req.currency })))
          k.decode_order none

  -- A read or a change of one resource, whose path goes on with `rest` after its id.
  unfoldable pub on_resource :
      {A : Type 0}
      → String
      → String
      → String
      → String
      → String
      → String
      → (String → String ⊎ A)
      → Result A
  on_resource method base rest sentinel noun id decode =
      if id == ""
      then unsent (sentinel <> (": no " <> (noun <> " id given"))) (some sentinel)
      else mapped sentinel id
          (send method (base <> ("/" <> (k.path_escape id <> rest))) none decode none)

  unfoldable pub fetch_order : String → Result Order
  fetch_order id = on_resource method_get "/orders" "" err_order_not_found "order" id k.decode_order

  unfoldable pub list_payments_for_order : String → Result (List Payment)
  list_payments_for_order id = items_of (
      on_resource method_get "/orders" "/payments" err_order_not_found "order" id k.decode_payments)

  unfoldable pub fetch_payment : String → Result Payment
  fetch_payment id =
      on_resource method_get "/payments" "" err_payment_not_found "payment" id k.decode_payment

  unfoldable pub create_payment_link : CreatePaymentLinkRequest → Result PaymentLink
  create_payment_link req =
      if leb_ℤ req.amount_paise (pos 0)
      then unsent (err_amount_not_positive <> (": got " <> (decimal req.amount_paise <> " paise")))
          none
      else send method_post "/payment_links"
          (some (k.encode_link (record req { currency = with_currency req.currency })))
          k.decode_link none

  unfoldable pub issue_invoice : String → Result Invoice
  issue_invoice id =
      on_resource method_post "/invoices" "/issue" err_invoice_not_found "invoice" id
        k.decode_invoice

  unfoldable pub fetch_invoice : String → Result Invoice
  fetch_invoice id =
      on_resource method_get "/invoices" "" err_invoice_not_found "invoice" id k.decode_invoice

  unfoldable pub cancel_invoice : String → Result Invoice
  cancel_invoice id =
      on_resource method_post "/invoices" "/cancel" err_invoice_not_found "invoice" id
        k.decode_invoice

  -- The receipt of a notification that was answered by a 2xx.
  unfoldable pub receipt_of : String → String → Result (Option Bool) → Result NotifyReceipt
  receipt_of id medium (done, inl e) = (done, inl e)
  receipt_of id medium (done, inr success) = (
    done,
    inr (record {
      link_id = id;
      medium = medium;
      accepted = taken success;
      requested_at = w.now (es ++ done);
    }),
  )

  -- What the two notifications share; `noun` is the word for the id.
  unfoldable pub notify_by : String → String → String → String → String → Result NotifyReceipt
  notify_by base sentinel noun id medium =
      if not (medium == medium_sms) && not (medium == medium_email)
      then unsent (err_unsupported_medium <> (": \"" <> (medium <> "\""))) none
      else if id == ""
      then unsent (sentinel <> (": no " <> (noun <> " id given"))) (some sentinel)
      else receipt_of id medium (
          mapped sentinel id (
            send method_post
              (base <> ("/" <> (k.path_escape id <> ("/notify_by/" <> k.path_escape medium)))) none
              k.decode_notify (some none)))

  unfoldable pub resend_payment_link_notification : String → String → Result NotifyReceipt
  resend_payment_link_notification id medium =
      notify_by "/payment_links" err_payment_link_not_found "link" id medium

  -- c.NotifyInvoice
  unfoldable pub notify_invoice : String → String → Result NotifyReceipt
  notify_invoice id medium = notify_by "/invoices" err_invoice_not_found "invoice" id medium

  unfoldable pub list_orders : ListOptions → Result (List Order)
  list_orders opts = items_of (send method_get ("/orders" <> query opts) none k.decode_orders none)

  unfoldable pub list_invoices : ListOptions → Result (List Invoice)
  list_invoices opts =
      items_of (send method_get ("/invoices" <> query opts) none k.decode_invoices none)
