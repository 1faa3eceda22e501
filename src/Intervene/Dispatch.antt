-- ===== src/Intervene/Dispatch.antt =====
-- The actions of internal/intervene/intervene.go: what each one calls and the outcome that it
-- comes to. `h` is the list of all the calls made before.
use rzp_rebound.Prelude.{
  String, ◌<>◌, inl, inr, true, false, not, ◌||◌, ◌&&◌, ◌==◌, if◌then◌else◌, none, some, List, [],
  ◌∷◌, ℤ, pos, leb_ℤ, eqb_ℤ, decimal,
}
use rzp_rebound.Action
use rzp_rebound.Time.{unix, add_time}
use rzp_rebound.Razorpay.{CallError, CreatePaymentLinkRequest, medium_sms, medium_email}
use rzp_rebound.RiskItem.{
  RiskItem, Outcome, dedupe_key, handle_kind_none, handle_kind_invoice, handle_kind_payment_link,
}
use rzp_rebound.Intervene.Calls.{
  PromiseRecord, Call, notify_invoice, fetch_invoice, cancel_invoice, create_link,
  resend_notification, log, Setup, Context,
}
use rzp_rebound.Intervene.Calls
use rzp_rebound.Intervene.Notify.{
  Step, idle, tried, gateway_declined, preferred_medium, reason_for, notify,
}

abbrev refusal_handle_exists : String
refusal_handle_exists =
    "item already has a handle, so a new payment link would be a second thing to pay"

abbrev refusal_no_amount : String
refusal_no_amount = "item has no positive amount to collect"

abbrev refusal_not_an_invoice : String
refusal_not_an_invoice = "cancel_write_off is only lawful for an invoice-handled item"

abbrev refusal_no_action_available : String
refusal_no_action_available = "no implementation for this lawful action"

abbrev observable_escalated : String
observable_escalated = "escalated:queued"

abbrev observable_create_accepted : String
observable_create_accepted = "plink_api:accepted"

-- The amount that a new link asks for.
unfoldable pub link_amount : RiskItem → ℤ
link_amount item =
    if leb_ℤ item.amount_due_paise (pos 0) && eqb_ℤ item.amount_paid_paise (pos 0)
    then item.amount_paise
    else item.amount_due_paise

-- How the creation of a link and the cancelling of an invoice take an error of the gateway.
unfoldable pub not_done : List Call → Outcome → CallError → String → Step
not_done calls out e what =
    if gateway_declined e
    then tried calls (record out { err = e.text }) none
    else tried calls out (some (what <> e.text))

unfoldable pub link_request : Setup → RiskItem → CreatePaymentLinkRequest
link_request s item = record {
  amount_paise = link_amount item;
  currency = item.currency;
  description = s.link_desc;
  reference_id = item.id;
  notify_sms = false;
  notify_email = false;
}

unfoldable pub create_payment_link : Setup → List Call → RiskItem → Outcome → Step
create_payment_link s h item out =
    let req = link_request s item in
    if not (item.pay_handle.kind == handle_kind_none)
    then idle (record out { handle = item.pay_handle; err = refusal_handle_exists })
    else if leb_ℤ (link_amount item) (pos 0)
    then idle (record out { err = refusal_no_amount })
    else elim (s.outside.answer_create_link h req) [
      | inl e ↦
          not_done (create_link req ∷ []) out e
            ("intervene: create a payment link for " <> (item.id <> ": "))
      | inr link ↦
          tried (create_link req ∷ [])
            (record out {
              accepted = true;
              handle = record {
                kind = handle_kind_payment_link;
                url = link.short_url;
                id = link.id;
              };
              observable =
                  if link.status == ""
                  then observable_create_accepted
                  else "plink_status:" <> link.status;
            })
            none
    ]

unfoldable pub cancel_write_off : Setup → List Call → RiskItem → Outcome → Step
cancel_write_off s h item out =
    let id = item.pay_handle.id in
    if not (item.pay_handle.kind == handle_kind_invoice) || id == ""
    then idle (record out { err = refusal_not_an_invoice })
    else elim (s.outside.answer_cancel_invoice h id) [
      | inl e ↦
          not_done (cancel_invoice id ∷ []) out e ("intervene: cancel invoice " <> (id <> ": "))
      | inr invoice ↦
          tried (cancel_invoice id ∷ [])
            (record out {
              accepted = true;
              handle = item.pay_handle;
              observable = "invoice_status:" <> invoice.status;
            })
            none
    ]

-- The record that logPromise writes.
unfoldable pub promise_record : Setup → Context → RiskItem → Outcome → PromiseRecord
promise_record s ctx item out = record {
  risk_item_id = item.id;
  promised_at_unix = unix out.at;
  hold_until_unix = unix (add_time out.at s.promise_hold);
  note = reason_for ctx item Action.log_promise;
}

unfoldable pub log_promise : Setup → List Call → Context → RiskItem → Outcome → Step
log_promise s h ctx item out =
    let rec = promise_record s ctx item out in
    elim (s.outside.answer_log h rec) [
      | some e ↦
          tried (log rec ∷ []) out
            (some ("intervene: log a promise for " <> (item.id <> (": " <> e))))
      | none ↦
          tried (log rec ∷ [])
            (record out {
              accepted = true;
              observable = "promise_hold_until:" <> decimal rec.hold_until_unix;
            })
            none
    ]

-- The record that escalate writes.
unfoldable pub escalation_of : Context → RiskItem → Outcome → Calls.Escalation
escalation_of ctx item out = record {
  risk_item_id = item.id;
  dedupe_key = dedupe_key item;
  root_order_id = item.root_order_id;
  source = item.source;
  amount_due_paise = item.amount_due_paise;
  currency = item.currency;
  reason = reason_for ctx item Action.escalate;
  raised_at = out.at;
}

unfoldable pub escalate : Setup → List Call → Context → RiskItem → Outcome → Step
escalate s h ctx item out =
    let esc = escalation_of ctx item out in
    elim (s.outside.answer_escalate h esc) [
      | some e ↦
          tried (Calls.raise esc ∷ []) out
            (some ("intervene: escalate " <> (item.id <> (": " <> e))))
      | none ↦
          tried (Calls.raise esc ∷ [])
            (record out { accepted = true; observable = observable_escalated }) none
    ]

unfoldable pub dispatch : Setup → List Call → Context → RiskItem → String → Outcome → Step
dispatch s h ctx item action out =
    if action == Action.notify_email
    then notify s h item out medium_email
    else if action == Action.notify_sms
    then notify s h item out medium_sms
    else if action == Action.resend_link
    then notify s h item out (preferred_medium item)
    else if action == Action.create_payment_link
    then create_payment_link s h item out
    else if action == Action.log_promise
    then log_promise s h ctx item out
    else if action == Action.escalate
    then escalate s h ctx item out
    else if action == Action.cancel_write_off
    then cancel_write_off s h item out
    else if action == Action.do_nothing
    then idle (record out { accepted = true })
    else idle (record out { err = refusal_no_action_available })
