-- ===== src/Recovery/Arms/Rules.antt =====
-- internal/recovery/arms.go: the arm that asks the gate before it acts, and Act.
use rzp_rebound.Prelude.{
  String, ◌<>◌, inl, inr, Bool, true, false, ◌||◌, ◌==◌, if◌then◌else◌, Option, none, some, [], ◌∷◌,
  ℤ, pos, decimal,
}
use rzp_rebound.Time.{zero_time}
use rzp_rebound.Classify
use rzp_rebound.Classify.{Class}
use rzp_rebound.Policy.{
  Platform, Config, Verdict, Decision, Request, evaluate, allowed, idempotency_key, verdict_text,
  rule_text,
}
use rzp_rebound.Intervene.{short_key}
use rzp_rebound.Razorpay.{PaymentLink, Answer, medium_email}
use rzp_rebound.Razorpay.Codec.{with_currency}
use rzp_rebound.Notifier.{SendReceipt, send_payment_link}
use rzp_rebound.Audit.{Event, kind_policy_evaluated}
use rzp_rebound.OrderStore.{attempts, snapshot, commit, increment}
use rzp_rebound.Recovery.{
  AgentVisibleOrder, ActionResult, Surface, State, action_none, action_retry_same_instrument,
  action_request_reauth, action_request_new_instrument, action_for_class, record_row,
  record_error_text, bool_text,
}
use rzp_rebound.Recovery.Arms.{
  Arm, control_arm, naive_arm, rules_arm, arm_rules, Acted, with_detail, represent, control, naive,
}

abbrev pub kind_notification_requested : String
kind_notification_requested = "notification_requested"

-- What the rules arm asks the gate. The source and the other fields of a risk item are left at
-- their zero values.
unfoldable pub request_for : AgentVisibleOrder → Class → String → ℤ → Request
request_for order class action attempt_no = record {
  risk_item_id = "";
  source = "";
  action = action;
  class = class;
  signal_present = false;
  amount_paise = order.amount_paise;
  amount_due_paise = pos 0;
  has_email = false;
  has_contact = false;
  source_status = "";
  disputed = false;
  at_risk_since = zero_time;
  promise_hold_until = zero_time;
  touch_no = pos 0;
  order_id = order.order_id;
  attempt_no = attempt_no;
}

module _ {W : Type 0} (u : Surface W) where
  -- The row and the answer of requestFromCustomer, after the notification
  unfoldable pub note_request :
      State W
      → AgentVisibleOrder
      → Class
      → ActionResult
      → String
      → SendReceipt
      → Option String
      → Acted W
  note_request s order class r link_id receipt sent =
      let noted =
        with_detail (with_detail r "notification_audit_phrase" receipt.audit_phrase)
          "notification_delivery_confirmed" (bool_text receipt.delivery_confirmed) in
      let (s', row) = record_row u s (record {
        order_id = order.order_id;
        kind = kind_notification_requested;
        class = Classify.string class;
        proposed_action = r.kind;
        policy_verdict = r.policy_verdict;
        policy_rule = r.policy_rule;
        detail =
            ("arm", arm_rules)
            ∷ ("payment_link_id", link_id)
            ∷ ("medium", medium_email)
            ∷ ("audit_phrase", receipt.audit_phrase)
            ∷ ("api_call_succeeded", bool_text receipt.call_succeeded)
            ∷ ("delivery_confirmed", bool_text receipt.delivery_confirmed)
            ∷ [];
      }) in
      (
        s',
        elim row [
          | some e ↦ (noted, some (record_error_text e))
          | none ↦ elim sent [
            | some e ↦ (with_detail noted "action_error" e, some e)
            | none ↦ (noted, none)
          ]
        ],
      )

  -- requestFromCustomer past the answer about the link
  unfoldable pub on_link :
      State W → AgentVisibleOrder → Class → ActionResult → Answer PaymentLink → Acted W
  on_link s order class r (inl e) = (s, (with_detail r "action_error" e, some e))
  on_link s order class r (inr link) =
      let (w, sent) =
        send_payment_link u.port.resend_notification u.quoted s.world (u.clock.now s.world) link.id
          medium_email in
      note_request (record s { world = w }) order class (with_detail r "payment_link_id" link.id)
        link.id sent.0 sent.1

  unfoldable pub request_from_customer :
      State W → AgentVisibleOrder → Class → ActionResult → String → Acted W
  request_from_customer s order class r key =
      let (w, answer) = u.port.create_payment_link s.world (record {
        amount_paise = order.amount_paise;
        currency = with_currency u.currency;
        description = "recovery for " <> order.order_id;
        reference_id = order.receipt;
        notify_sms = false;
        notify_email = false;
      }) in
      let store = (commit s.store order.order_id key r.kind (u.clock.now w)).0 in
      on_link (record s { world = w; store = store }) order class
        (record (with_detail r "side_effect" "true") { side_effect = true }) answer

  -- rules past an allowing decision
  unfoldable pub carry_out :
      State W → AgentVisibleOrder → Class → String → ActionResult → String → Acted W
  carry_out s order class action r key =
      if action == action_retry_same_instrument
      then represent u s order r key
      else if action == action_request_reauth || action == action_request_new_instrument
      then request_from_customer s order class r key
      else (
        s,
        (
          record (with_detail r "no_action_for_class" (Classify.string class)) {
            kind = action_none;
          },
          none,
        ),
      )

  -- rules past a refusing decision
  unfoldable pub refused : ActionResult → String → Decision → ActionResult
  refused r action d =
      let escalated : Bool = elim d.verdict [ Verdict.escalate ↦ true | _ ↦ false ] in
      with_detail
        (with_detail (record r { kind = action_none; escalated = escalated }) "escalated"
          (bool_text escalated))
        "refused_action" action

  -- The result that rules starts from, with the decision on it.
  unfoldable pub decided : String → Decision → ℤ → ActionResult
  decided action d attempt_no = record {
    kind = action;
    claimed_recovered = false;
    policy_verdict = verdict_text d.verdict;
    policy_rule = rule_text d.rule_id;
    escalated = false;
    side_effect = false;
    gateway_calls = pos 0;
    detail =
        ("arm", arm_rules)
        ∷ ("policy_consulted", "true")
        ∷ ("side_effect", "false")
        ∷ ("idempotency_key", short_key d.idempotency_key)
        ∷ ("idempotent_replay", bool_text d.idempotent_replay)
        ∷ ("attempt_no", decimal attempt_no)
        ∷ ("policy_reason", u.reason_text d.reason)
        ∷ ("attempts_remaining", decimal d.remaining)
        ∷ [];
  }

  -- The row of the evaluation.
  unfoldable pub evaluated : AgentVisibleOrder → Class → String → Decision → ℤ → Event
  evaluated order class action d attempt_no = record {
    order_id = order.order_id;
    kind = kind_policy_evaluated;
    class = Classify.string class;
    proposed_action = action;
    policy_verdict = verdict_text d.verdict;
    policy_rule = rule_text d.rule_id;
    detail =
        ("arm", arm_rules)
        ∷ ("idempotency_key", short_key d.idempotency_key)
        ∷ ("idempotent_replay", bool_text d.idempotent_replay)
        ∷ ("attempt_no", decimal attempt_no)
        ∷ ("policy_reason", u.reason_text d.reason)
        ∷ [];
  }

  -- The decision of the gate about an order.
  unfoldable pub decision_on :
      Platform × Config → Bool → State W → AgentVisibleOrder → Class → Decision
  decision_on (platform, cfg) kill s order class =
      let action = action_for_class class in
      let attempt_no = increment (attempts s.store order.order_id) in
      let key = idempotency_key platform.sha256_hex order.order_id action attempt_no in
      evaluate platform cfg (u.clock.now s.world) (snapshot s.store order.order_id key kill)
        (request_for order class action attempt_no)

  unfoldable pub rules : Platform × Config → Bool → State W → AgentVisibleOrder → Class → Acted W
  rules gate kill s order class =
      let action = action_for_class class in
      let attempt_no = increment (attempts s.store order.order_id) in
      let d = decision_on gate kill s order class in
      let r = decided action d attempt_no in
      let (s', row) = record_row u s (evaluated order class action d attempt_no) in
      elim row [
        | some e ↦ (s', (r, some (record_error_text e)))
        | none ↦ elim (allowed d) [
          | false ↦ (s', (refused r action d, none))
          | true ↦ carry_out s' order class action r d.idempotency_key
        ]
      ]

  -- a.Act
  unfoldable pub act : Arm → State W → AgentVisibleOrder → Class → Acted W
  act a s order class = elim a.mind [
    | control_arm ↦ control a s
    | naive_arm ↦ naive a u s order
    | rules_arm gate ↦ rules gate a.kill s order class
  ]
