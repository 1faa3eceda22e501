-- ===== src/Intervene/Calls.antt =====
-- What internal/intervene/intervene.go, promise.go and escalation.go let an engine call: the
-- gateway, the promise ledger and the escalation sink, which are interfaces of the source.
use rzp_rebound.Prelude.{String, ◌⊎◌, Option, List, ℤ, pos, ◌==◌, if◌then◌else◌, leb_ℤ, ◌*◌}
use rzp_rebound.Time.{Instant, Duration, hour}
use rzp_rebound.Razorpay.{NotifyReceipt, Invoice, PaymentLink, CreatePaymentLinkRequest, CallError}
use rzp_rebound.Audit.{Services}

pub record PromiseRecord : Type 0 where
  pub risk_item_id : String
  pub promised_at_unix : ℤ
  pub hold_until_unix : ℤ
  pub note : String

pub record Escalation : Type 0 where
  pub risk_item_id : String
  pub dedupe_key : String
  pub root_order_id : String
  pub source : String
  pub amount_due_paise : ℤ
  pub currency : String
  pub reason : String
  pub raised_at : Instant

pub data Call : Type 0 where
  notify_invoice : String → String → Call
  fetch_invoice : String → Call
  cancel_invoice : String → Call
  create_link : CreatePaymentLinkRequest → Call
  resend_notification : String → String → Call
  log : PromiseRecord → Call
  raise : Escalation → Call

-- The Gateway, the PromiseLedger and the EscalationSink of an engine. What is answered may depend
-- on all the calls made before; the error of a write is its text.
pub record Outside : Type 0 where
  pub answer_notify_invoice : List Call → String → String → CallError ⊎ NotifyReceipt
  pub answer_fetch_invoice : List Call → String → CallError ⊎ Invoice
  pub answer_cancel_invoice : List Call → String → CallError ⊎ Invoice
  pub answer_create_link : List Call → CreatePaymentLinkRequest → CallError ⊎ PaymentLink
  pub answer_resend : List Call → String → String → CallError ⊎ NotifyReceipt
  pub answer_log : List Call → PromiseRecord → Option String
  pub answer_escalate : List Call → Escalation → Option String

abbrev pub default_promise_hold : Duration
default_promise_hold = pos (72 * hour)

abbrev pub default_link_description : String
default_link_description = "Outstanding payment"

-- The part of an Engine that does not change. `services` is what its recorder calls.
pub record Setup : Type 0 where
  pub outside : Outside
  pub services : Services
  pub promise_hold : Duration
  pub link_desc : String

-- New, given everything that it requires
unfoldable pub new_setup : Outside → Services → Duration → String → Setup
new_setup outside services hold desc = record {
  outside = outside;
  services = services;
  promise_hold = if leb_ℤ hold (pos 0) then default_promise_hold else hold;
  link_desc = if desc == "" then default_link_description else desc;
}

-- The values that Apply reads from its context.
pub record Context : Type 0 where
  pub idempotency_key : String
  pub reason : String
