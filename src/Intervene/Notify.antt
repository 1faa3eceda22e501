-- ===== src/Intervene/Notify.antt =====
-- The notifications of internal/intervene/intervene.go, and what an action comes to. `h` is the list of all the calls made before.
use rzp_rebound.Prelude.{
  String, ◌<>◌, inl, inr, Bool, true, false, not, ◌&&◌, ◌==◌, if◌then◌else◌, Option, none, some,
  List, [], ◌∷◌, ◌++◌, pos, ltb_ℤ, leb_ℤ,
}
use rzp_rebound.Razorpay.{Invoice, CallError, medium_sms, medium_email}
use rzp_rebound.RiskItem.{
  RiskItem, Outcome, has_contact_channel, handle_kind_invoice, handle_kind_payment_link,
}
use rzp_rebound.Intervene.Calls.{
  Call, notify_invoice, fetch_invoice, resend_notification, Setup, Context,
}

abbrev pub refusal_unlawful_action : String
refusal_unlawful_action = "action is not in the lawful set"

abbrev refusal_no_contact_channel : String
refusal_no_contact_channel = "item has no contact channel"

abbrev refusal_no_handle : String
refusal_no_handle = "item has nothing to notify about: no payment link and no invoice"

abbrev refusal_gateway_not_accept : String
refusal_gateway_not_accept = "the gateway answered without accepting the notification API call"

abbrev pub observable_notify_accepted : String
observable_notify_accepted = "notify_api:accepted"

abbrev pub observable_notify_refused : String
observable_notify_refused = "notify_api:refused"

abbrev pub observable_notify_failed : String
observable_notify_failed = "notify_api:failed"

-- What an action comes to: its outcome, whether anything was called, the error, and the calls
-- themselves, in order.
pub record Step : Type 0 where
  pub out : Outcome
  pub attempted : Bool
  pub call_err : Option String
  pub calls : List Call

-- return out, false, nil
unfoldable pub idle : Outcome → Step
idle out = record { out = out; attempted = false; call_err = none; calls = [] }

-- return out, true, err
unfoldable pub tried : List Call → Outcome → Option String → Step
tried calls out err = record { out = out; attempted = true; call_err = err; calls = calls }

unfoldable pub gateway_declined : CallError → Bool
gateway_declined e = if e.exhausted then false else elim e.answer [
  | none ↦ false
  | some api ↦ leb_ℤ (pos 400) api.status_code && ltb_ℤ api.status_code (pos 500)
]

unfoldable pub notify_status : Invoice → String → String × String
notify_status invoice medium =
    if medium == medium_sms
    then ("sms_status", invoice.sms_status)
    else ("email_status", invoice.email_status)

unfoldable pub preferred_medium : RiskItem → String
preferred_medium item = if not (item.customer.email == "") then medium_email else medium_sms

unfoldable pub reason_for : Context → RiskItem → String → String
reason_for ctx item action =
    if not (ctx.reason == "")
    then ctx.reason
    else action <> (" for " <> (item.source <> (" item " <> item.id)))

-- notifyInvoice past an accepted notification: the invoice is read back.
unfoldable pub read_back : Setup → List Call → Outcome → String → String → Step
read_back s h out id medium =
    let calls = notify_invoice id medium ∷ fetch_invoice id ∷ [] in
    elim (s.outside.answer_fetch_invoice (h ++ notify_invoice id medium ∷ []) id) [
      | inl e ↦
          tried calls
            (record out {
              observable = observable_notify_accepted;
              err = "the notification API call succeeded and the verifying read failed: " <> e.text;
            })
            none
      | inr invoice ↦
          let (field, status) = notify_status invoice medium in
          tried calls
            (record out {
              observable =
                  if status == "" then observable_notify_accepted else field <> (":" <> status);
            })
            none
    ]

-- How both notifications take an error of the gateway.
unfoldable pub not_notified : List Call → Outcome → CallError → String → Step
not_notified calls out e what =
    if gateway_declined e
    then tried calls (record out { observable = observable_notify_refused; err = e.text }) none
    else tried calls (record out { observable = observable_notify_failed }) (some (what <> e.text))

abbrev not_taken : Outcome → Outcome
not_taken out = record out {
  observable = observable_notify_refused;
  err = refusal_gateway_not_accept;
}

-- e.notifyInvoice
unfoldable pub notify_by_invoice : Setup → List Call → RiskItem → Outcome → String → Step
notify_by_invoice s h item out medium =
    let id = item.pay_handle.id in
    let call = notify_invoice id medium ∷ [] in
    elim (s.outside.answer_notify_invoice h id medium) [
      | inl e ↦
          not_notified call out e
            ("intervene: notify invoice " <> (id <> (" over " <> (medium <> ": "))))
      | inr receipt ↦
          if not receipt.accepted
          then tried call (not_taken out) none
          else read_back s h (record out { accepted = true; handle = item.pay_handle }) id medium
    ]

unfoldable pub resend_payment_link : Setup → List Call → RiskItem → Outcome → String → Step
resend_payment_link s h item out medium =
    let id = item.pay_handle.id in
    let call = resend_notification id medium ∷ [] in
    elim (s.outside.answer_resend h id medium) [
      | inl e ↦
          not_notified call out e
            ("intervene: resend payment link " <> (id <> (" over " <> (medium <> ": "))))
      | inr receipt ↦
          if not receipt.accepted
          then tried call (not_taken out) none
          else tried call
              (record out {
                accepted = true;
                handle = item.pay_handle;
                observable = observable_notify_accepted;
              })
              none
    ]

unfoldable pub notify : Setup → List Call → RiskItem → Outcome → String → Step
notify s h item out medium =
    if not (has_contact_channel item.customer)
    then idle (record out { err = refusal_no_contact_channel })
    else if item.pay_handle.id == ""
    then idle (record out { err = refusal_no_handle })
    else if item.pay_handle.kind == handle_kind_invoice
    then notify_by_invoice s h item out medium
    else if item.pay_handle.kind == handle_kind_payment_link
    then resend_payment_link s h item out medium
    else idle (record out { err = refusal_no_handle })
