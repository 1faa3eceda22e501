-- ===== src/Intervene/Warranted.antt =====
-- What an action may call: each call that a dispatch makes is warranted by the item and the action.
use rzp_rebound.Prelude.{String, ◌≡◌, ◌≢◌, refl, ◌⊎◌, inl, inr, true, false, List, [], ◌∷◌, All}
use rzp_rebound.Action
use rzp_rebound.Time.{Instant, unix, add_time}
use rzp_rebound.RiskItem.{
  RiskItem, Outcome, dedupe_key, handle_kind_invoice, handle_kind_payment_link,
}
use rzp_rebound.Razorpay.{medium_email, medium_sms}
use rzp_rebound.Intervene.{
  Setup, Context, Call, notify_invoice, fetch_invoice, cancel_invoice, create_link,
  resend_notification, log, raise, Step, idle, preferred_medium, notify_by_invoice,
  resend_payment_link, notify, link_request, create_payment_link, cancel_write_off, promise_record,
  log_promise, escalation_of, escalate, dispatch,
}
use rzp_rebound.Intervene.Traces.{
  MediumOf, Sendable, Billable, notify_by_invoice_calls, resend_payment_link_calls,
  create_payment_link_calls, cancel_write_off_calls, log_promise_calls, escalate_calls,
  notify_cases, dispatch_cases,
}

module _ (s : Setup) (ctx : Context) (item : RiskItem) (action : String) (at : Instant) where
  abbrev pub Warranted : Call → Type 0
  Warranted (notify_invoice id medium) =
      MediumOf item action medium × Sendable item handle_kind_invoice id
  Warranted (fetch_invoice id) = item.pay_handle.id ≡ id
  Warranted (cancel_invoice id) =
      (action ≡ Action.cancel_write_off)
      × (item.pay_handle.kind ≡ handle_kind_invoice)
      × (item.pay_handle.id ≡ id)
      × (id ≢ "")
  Warranted (create_link req) =
      (action ≡ Action.create_payment_link)
      × Billable item req.amount_paise
      × (req.currency ≡ item.currency)
      × (req.reference_id ≡ item.id)
      × (req.notify_sms ≡ false)
      × (req.notify_email ≡ false)
  Warranted (resend_notification id medium) =
      MediumOf item action medium × Sendable item handle_kind_payment_link id
  Warranted (log rec) =
      (action ≡ Action.log_promise)
      × (rec.risk_item_id ≡ item.id)
      × (rec.promised_at_unix ≡ unix at)
      × (rec.hold_until_unix ≡ unix (add_time at s.promise_hold))
  Warranted (raise esc) =
      (action ≡ Action.escalate)
      × (esc.risk_item_id ≡ item.id)
      × (esc.dedupe_key ≡ dedupe_key item)
      × (esc.raised_at ≡ at)

  -- Either nothing was called, and the step says so, or some warranted calls were.
  abbrev pub Honest : Step → Type 0
  Honest step =
      ((step.attempted ≡ false) × (step.calls ≡ []))
      ⊎ ((step.attempted ≡ true)
          × ((c : Call) × (cs : List Call) × (step.calls ≡ c ∷ cs) × All Warranted (c ∷ cs)))

  tried-Honest :
      (c : Call) (cs : List Call) (step : Step)
      → step.attempted ≡ true
      → step.calls ≡ c ∷ cs
      → All Warranted (c ∷ cs)
      → Honest step
  tried-Honest c cs step a e h = inr (a, (c, cs, e, h))

  idle-Honest : (out : Outcome) → Honest (idle out)
  unfolding idle
  idle-Honest out = inl (refl, refl)

notify-Honest :
    (s : Setup) (ctx : Context) (h : List Call) (item : RiskItem) (out : Outcome)
    (action medium : String)
    → MediumOf item action medium
    → Honest s ctx item action out.at (notify s h item out medium)
notify-Honest s ctx h item out action medium m = elim (notify_cases s h item out medium) [
  | inl none_made ↦ inl none_made
  | inr (inl (ready, same)) ↦
      let (a, calls) = notify_by_invoice_calls s h item out medium in
      rw same (elim calls [
        | inl one ↦
            tried-Honest s ctx item action out.at _ _ (notify_by_invoice s h item out medium) a one
              ((m, ready), tt)
        | inr two ↦
            tried-Honest s ctx item action out.at _ _ (notify_by_invoice s h item out medium) a two
              ((m, ready), (refl, tt))
      ])
  | inr (inr (ready, same)) ↦
      let (a, one) = resend_payment_link_calls s h item out medium in
      rw same (
        tried-Honest s ctx item action out.at _ _ (resend_payment_link s h item out medium) a one
          ((m, ready), tt))
]

create_payment_link-Honest :
    (s : Setup) (ctx : Context) (h : List Call) (item : RiskItem) (out : Outcome) (action : String)
    → action ≡ Action.create_payment_link
    → Honest s ctx item action out.at (create_payment_link s h item out)
unfolding link_request
create_payment_link-Honest s ctx h item out action is =
    elim (create_payment_link_calls s h item out) [
      | inl none_made ↦ inl none_made
      | inr (a, one, bill) ↦
          tried-Honest s ctx item action out.at _ _ (create_payment_link s h item out) a one
            ((is, bill, refl, refl, refl, refl), tt)
    ]

cancel_write_off-Honest :
    (s : Setup) (ctx : Context) (h : List Call) (item : RiskItem) (out : Outcome) (action : String)
    → action ≡ Action.cancel_write_off
    → Honest s ctx item action out.at (cancel_write_off s h item out)
cancel_write_off-Honest s ctx h item out action is = elim (cancel_write_off_calls s h item out) [
  | inl none_made ↦ inl none_made
  | inr (a, one, kind, id) ↦
      tried-Honest s ctx item action out.at _ _ (cancel_write_off s h item out) a one
        ((is, kind, refl, id), tt)
]

log_promise-Honest :
    (s : Setup) (ctx : Context) (h : List Call) (item : RiskItem) (out : Outcome) (action : String)
    → action ≡ Action.log_promise
    → Honest s ctx item action out.at (log_promise s h ctx item out)
unfolding promise_record
log_promise-Honest s ctx h item out action is =
    let (a, one) = log_promise_calls s h ctx item out in
    tried-Honest s ctx item action out.at _ _ (log_promise s h ctx item out) a one
      ((is, refl, refl, refl), tt)

escalate-Honest :
    (s : Setup) (ctx : Context) (h : List Call) (item : RiskItem) (out : Outcome) (action : String)
    → action ≡ Action.escalate
    → Honest s ctx item action out.at (escalate s h ctx item out)
unfolding escalation_of
escalate-Honest s ctx h item out action is =
    let (a, one) = escalate_calls s h ctx item out in
    tried-Honest s ctx item action out.at _ _ (escalate s h ctx item out) a one
      ((is, refl, refl, refl), tt)

-- Every call that an action makes is warranted: a notification goes out over the medium that the
-- action names, to an item with a contact channel, about its own invoice or link; a link is asked
-- for what is due, or for the whole amount if nothing is reported paid or due, where there is no
-- handle yet; an invoice is cancelled for the write-off of an item that has it; a promise or an
-- escalation is written for its own action, about the item, at the instant of the outcome. And the
-- step says that something was attempted exactly when something was called.
pub dispatch-Honest :
    (s : Setup) (h : List Call) (ctx : Context) (item : RiskItem) (action : String) (out : Outcome)
    → Honest s ctx item action out.at (dispatch s h ctx item action out)
dispatch-Honest s h ctx item action out = elim (dispatch_cases s h ctx item action out) [
  | inl (is, e) ↦ rw e (notify-Honest s ctx h item out action medium_email (inl (is, refl)))
  | inr (inl (is, e)) ↦
      rw e (notify-Honest s ctx h item out action medium_sms (inr (inl (is, refl))))
  | inr (inr (inl (is, e))) ↦
      rw e (notify-Honest s ctx h item out action (preferred_medium item) (inr (inr (is, refl))))
  | inr (inr (inr (inl (is, e)))) ↦ rw e (create_payment_link-Honest s ctx h item out action is)
  | inr (inr (inr (inr (inl (is, e))))) ↦ rw e (log_promise-Honest s ctx h item out action is)
  | inr (inr (inr (inr (inr (inl (is, e)))))) ↦ rw e (escalate-Honest s ctx h item out action is)
  | inr (inr (inr (inr (inr (inr (inl (is, e))))))) ↦
      rw e (cancel_write_off-Honest s ctx h item out action is)
  | inr (inr (inr (inr (inr (inr (inr none_made)))))) ↦ inl none_made
]
