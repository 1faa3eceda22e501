-- ===== src/Razorpay/Examples.antt =====
-- A client whose gateway answers two requests with a 429 and the next with a 2xx, and knows of no
-- order.
use Prim.Native.String.{slice, len}
use rzp_rebound.Prelude.{
  String, ◌≡◌, ◌≢◌, refl, ◌⊎◌, inl, inr, true, false, ◌==◌, if◌then◌else◌, none, some, List, [],
  ◌∷◌, length, ◌≤◌, ltb, pos, pos_part, arith, OneOf, wrap64, ◌+ℤ◌, decimal,
}
use rzp_rebound.Audit.{Services, redact_value}
use rzp_rebound.Razorpay.{CallError, NotifyReceipt, medium_sms, medium_email, api_error_text}
use rzp_rebound.Razorpay.Client.{
  Client, ClientOptions, new_client, new_client_of, Wire, Sending, Exchange, answered, redact,
  redact_err, api_error, of_api, capture_response,
}
use rzp_rebound.Razorpay.Retry.{
  Reading, do_with, attempts_from, attempt_once, on_answer, by_status, read_body, decoded,
  is_success, next_backoff,
}
use rzp_rebound.Razorpay.Attempt.{replies, waits, EndsTaken, EndsWith}
use rzp_rebound.Razorpay.Schedule.{IsSettled, Scheduled, do_with-Scheduled}
use rzp_rebound.Razorpay.Codec.{
  Codec, err_order_not_found, err_invoice_not_found, is_missing, map_not_found,
}
use rzp_rebound.Razorpay.Endpoints.{send, on_resource, receipt_of, notify_by}
use rzp_rebound.Razorpay.Receipts.{notify_by-Receipt}
use rzp_rebound.Razorpay.Missing.{IsMissing, on_resource-IsMissing}

abbrev plain : Services
plain = record {
  replace_all = λ pattern text with. text;
  to_lower = λ s. s;
  trim_space = λ s. s;
  marshal = λ row. none;
  write = λ rows row. none;
}

abbrev wire : Wire
wire = record {
  services = plain;
  replace_text = λ s old with. s;
  valid_json = λ s. false;
  byte_len = len;
  valid_prefix = λ s n. slice s 0 n;
  envelope = λ body. ("", "");
  marshal_line = λ line. none;
  round_trip = λ es req.
      if req.method == "GET"
      then answered (pos 404) "no such order"
      else if ltb (length (replies es)) 2
      then answered (pos 429) "slow down"
      else answered (pos 200) "";
  write_line = λ es line. none;
  wait = λ es d. none;
  now = λ es. 7;
}

abbrev options : ClientOptions
options = record {
  key_id = "rzp_test_1";
  key_secret = "s";
  max_attempts = pos 0;
  base_backoff = pos 0;
  max_backoff = pos 0;
  capturing = false;
}

abbrev client : Client
client = new_client_of (λ s. s) "/v1" options

abbrev request : Sending
request = record { method = "POST"; path = "/orders"; payload = none }

abbrev reading : Reading String
reading = record { decode = λ body. inr body; empty_body = none; trim_space = λ s. s }

built : new_client (λ s. s) "/v1" options ≡ some client
unfolding new_client
built = refl

do_with-Scheduled_example :
    Scheduled client wire request reading
      (pos_part client.max_attempts)
      (do_with client wire request reading [])
do_with-Scheduled_example =
    do_with-Scheduled (λ s. s) "/v1" options client wire request reading [] built (omega arith)
      (omega arith)

-- The waits double.
two_waits :
    waits (do_with client wire request reading []).0 ≡ pos 250_000_000 ∷ pos 500_000_000 ∷ []
unfolding do_with attempts_from attempt_once on_answer by_status is_success next_backoff
    new_client_of capture_response wrap64 ◌+ℤ◌ api_error read_body decoded
two_waits = refl

settled : IsSettled client
unfolding new_client_of
settled = record {
  attempts = omega arith;
  base = omega arith;
  order = omega arith;
  top = omega arith;
}

abbrev codec : Codec
codec = record {
  path_escape = λ s. s;
  trim_space = λ s. s;
  encode_order = λ req. inr "";
  encode_link = λ req. inr "";
  decode_order = λ body. inl "no order";
  decode_payment = λ body. inl "no payment";
  decode_payments = λ body. inr none;
  decode_orders = λ body. inr none;
  decode_invoices = λ body. inr none;
  decode_link = λ body. inl "no link";
  decode_invoice = λ body. inl "no invoice";
  decode_notify = λ body. inr (some true);
}

abbrev invoice_id : String
invoice_id = "inv_1"

abbrev order_id : String
order_id = "order_1"

abbrev asked : List Exchange × (CallError ⊎ NotifyReceipt)
asked = notify_by client wire codec [] "/invoices" err_invoice_not_found "invoice" "inv_1" "email"

abbrev receipt : NotifyReceipt
receipt = record { link_id = "inv_1"; medium = "email"; accepted = true; requested_at = 7 }

notified : asked ≡ (asked.0, inr receipt)
unfolding notify_by send receipt_of do_with attempts_from attempt_once on_answer by_status
    is_success next_backoff new_client_of capture_response wrap64 ◌+ℤ◌ api_error read_body decoded
notified = refl

notify_by-Receipt_example :
    OneOf "email" (medium_sms ∷ medium_email ∷ [])
    × (invoice_id ≢ "")
    × (receipt.link_id ≡ "inv_1")
    × (receipt.medium ≡ "email")
    × (length (replies asked.0) ≤ pos_part client.max_attempts)
    × EndsTaken (replies asked.0)
notify_by-Receipt_example =
    notify_by-Receipt client wire codec [] "/invoices" err_invoice_not_found "invoice" "inv_1"
      "email" asked.0 receipt settled notified

abbrev lost : CallError
lost = record {
  exhausted = false;
  not_found = some err_order_not_found;
  answer = some (
      api_error client wire (record { method = "GET"; path = "/orders/order_1"; payload = none })
        (pos 404) "no such order");
  text =
      "razorpay: order not found: order_1: razorpay: GET /orders/order_1 returned 404: no such order";
}

abbrev read : List Exchange × (CallError ⊎ String)
read =
    on_resource client wire codec [] "GET" "/orders" "" err_order_not_found "order" "order_1"
      (λ body. inr body)

not_read : read ≡ (read.0, inl lost)
unfolding on_resource send do_with attempts_from attempt_once on_answer by_status is_success
    new_client_of capture_response api_error redact_value redact redact_err of_api api_error_text
    decimal map_not_found is_missing
not_read = refl

on_resource-IsMissing_example :
    (order_id ≡ "" → lost.not_found ≡ some err_order_not_found)
    × (lost.not_found ≡ some err_order_not_found
        → (order_id ≡ "") ⊎ EndsWith (IsMissing client wire) (replies read.0))
    × (client.capturing ≡ false
        → EndsWith (IsMissing client wire) (replies read.0)
        → lost.not_found ≡ some err_order_not_found)
on_resource-IsMissing_example =
    on_resource-IsMissing client wire codec [] "GET" "/orders" "" err_order_not_found "order"
      "order_1" (λ body. inr body) read.0 lost settled not_read
