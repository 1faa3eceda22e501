-- ===== src/Intervene/Traces.antt =====
-- What each action calls, whatever is answered.
use rzp_rebound.Prelude.{
  String, ◌≡◌, ◌≢◌, ◌⊎◌, true, false, eq_iff, List, [], ◌∷◌, ℤ, pos, ◌≤ℤ◌, arith,
}
use rzp_rebound.Action
use rzp_rebound.RiskItem.{
  RiskItem, Outcome, has_contact_channel, handle_kind_none, handle_kind_invoice,
  handle_kind_payment_link,
}
use rzp_rebound.Razorpay.{medium_email, medium_sms}
use rzp_rebound.Intervene.{
  Setup, Context, Call, notify_invoice, fetch_invoice, cancel_invoice, create_link,
  resend_notification, log, raise, idle, tried, preferred_medium, not_notified, not_done, read_back,
  notify_by_invoice, resend_payment_link, notify, link_amount, link_request, create_payment_link,
  cancel_write_off, promise_record, log_promise, escalation_of, escalate, dispatch,
}

-- The medium that an action names, or the preferred one.
abbrev pub MediumOf : RiskItem → String → String → Type 0
MediumOf item action medium =
    ((action ≡ Action.notify_email) × (medium ≡ medium_email))
    ⊎ ((action ≡ Action.notify_sms) × (medium ≡ medium_sms))
    ⊎ ((action ≡ Action.resend_link) × (medium ≡ preferred_medium item))

-- Something may be sent about the handle of the item, which is of this kind and has this id.
abbrev pub Sendable : RiskItem → String → String → Type 0
Sendable item kind id =
    (has_contact_channel item.customer ≡ true)
    × (item.pay_handle.kind ≡ kind)
    × (item.pay_handle.id ≡ id)
    × (id ≢ "")

-- A link may be made for the amount that is due, or for the whole amount if nothing was paid and
-- nothing is reported due.
abbrev pub Billable : RiskItem → ℤ → Type 0
Billable item amount =
    (pos 1 ≤ℤ amount)
    × (item.pay_handle.kind ≡ handle_kind_none)
    × ((amount ≡ item.amount_due_paise)
        ⊎ ((item.amount_due_paise ≤ℤ pos 0)
            × (item.amount_paid_paise ≡ pos 0)
            × (amount ≡ item.amount_paise)))

-- What the two notifications call, whatever is answered.
pub notify_by_invoice_calls :
    (s : Setup) (h : List Call) (item : RiskItem) (out : Outcome) (medium : String)
    → let step = notify_by_invoice s h item out medium in
      let call = notify_invoice item.pay_handle.id medium in
      (step.attempted ≡ true)
      × ((step.calls ≡ call ∷ []) ⊎ (step.calls ≡ call ∷ fetch_invoice item.pay_handle.id ∷ []))
unfolding notify_by_invoice not_notified read_back tried
notify_by_invoice_calls s h item out medium = ground arith

pub resend_payment_link_calls :
    (s : Setup) (h : List Call) (item : RiskItem) (out : Outcome) (medium : String)
    → let step = resend_payment_link s h item out medium in
      (step.attempted ≡ true) × (step.calls ≡ resend_notification item.pay_handle.id medium ∷ [])
unfolding resend_payment_link not_notified tried
resend_payment_link_calls s h item out medium = ground arith

pub create_payment_link_calls :
    (s : Setup) (h : List Call) (item : RiskItem) (out : Outcome)
    → let step = create_payment_link s h item out in
      ((step.attempted ≡ false) × (step.calls ≡ []))
      ⊎ ((step.attempted ≡ true)
          × (step.calls ≡ create_link (link_request s item) ∷ [])
          × Billable item (link_amount item))
unfolding create_payment_link not_done tried idle link_amount
create_payment_link_calls s h item out =
    ground (arith, eq_iff item.pay_handle.kind handle_kind_none)

pub cancel_write_off_calls :
    (s : Setup) (h : List Call) (item : RiskItem) (out : Outcome)
    → let step = cancel_write_off s h item out in
      ((step.attempted ≡ false) × (step.calls ≡ []))
      ⊎ ((step.attempted ≡ true)
          × (step.calls ≡ cancel_invoice item.pay_handle.id ∷ [])
          × (item.pay_handle.kind ≡ handle_kind_invoice)
          × (item.pay_handle.id ≢ ""))
unfolding cancel_write_off not_done tried idle
cancel_write_off_calls s h item out =
    ground (arith, eq_iff item.pay_handle.kind handle_kind_invoice, eq_iff item.pay_handle.id "")

pub log_promise_calls :
    (s : Setup) (h : List Call) (ctx : Context) (item : RiskItem) (out : Outcome)
    → let step = log_promise s h ctx item out in
      (step.attempted ≡ true) × (step.calls ≡ log (promise_record s ctx item out) ∷ [])
unfolding log_promise tried
log_promise_calls s h ctx item out = ground arith

pub escalate_calls :
    (s : Setup) (h : List Call) (ctx : Context) (item : RiskItem) (out : Outcome)
    → let step = escalate s h ctx item out in
      (step.attempted ≡ true) × (step.calls ≡ raise (escalation_of ctx item out) ∷ [])
unfolding escalate tried
escalate_calls s h ctx item out = ground arith

pub notify_cases :
    (s : Setup) (h : List Call) (item : RiskItem) (out : Outcome) (medium : String)
    → let step = notify s h item out medium in
      ((step.attempted ≡ false) × (step.calls ≡ []))
      ⊎ (Sendable item handle_kind_invoice item.pay_handle.id
          × (step ≡ notify_by_invoice s h item out medium))
      ⊎ (Sendable item handle_kind_payment_link item.pay_handle.id
          × (step ≡ resend_payment_link s h item out medium))
unfolding notify idle
notify_cases s h item out medium = ground (
  arith,
  eq_iff item.pay_handle.id "",
  eq_iff item.pay_handle.kind handle_kind_invoice,
  eq_iff item.pay_handle.kind handle_kind_payment_link,
)

-- Where a dispatch goes.
pub dispatch_cases :
    (s : Setup) (h : List Call) (ctx : Context) (item : RiskItem) (action : String) (out : Outcome)
    → let step = dispatch s h ctx item action out in
      ((action ≡ Action.notify_email) × (step ≡ notify s h item out medium_email))
      ⊎ ((action ≡ Action.notify_sms) × (step ≡ notify s h item out medium_sms))
      ⊎ ((action ≡ Action.resend_link) × (step ≡ notify s h item out (preferred_medium item)))
      ⊎ ((action ≡ Action.create_payment_link) × (step ≡ create_payment_link s h item out))
      ⊎ ((action ≡ Action.log_promise) × (step ≡ log_promise s h ctx item out))
      ⊎ ((action ≡ Action.escalate) × (step ≡ escalate s h ctx item out))
      ⊎ ((action ≡ Action.cancel_write_off) × (step ≡ cancel_write_off s h item out))
      ⊎ ((step.attempted ≡ false) × (step.calls ≡ []))
unfolding dispatch idle
dispatch_cases s h ctx item action out = ground (
  arith,
  eq_iff action Action.notify_email,
  eq_iff action Action.notify_sms,
  eq_iff action Action.resend_link,
  eq_iff action Action.create_payment_link,
  eq_iff action Action.log_promise,
  eq_iff action Action.escalate,
  eq_iff action Action.cancel_write_off,
)
