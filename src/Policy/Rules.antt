-- ===== src/Policy/Rules.antt =====
-- The rules of Policy.Evaluate in internal/policy/policy.go, one function each. A rule that does
-- not fire is `none`; one that does is the verdict, the rule id and the reason that it returns.
use rzp_rebound.Prelude.{
  Bool, true, false, not, ◌&&◌, ◌||◌, ◌==◌, Option, none, some, if◌then◌else◌, pos, ltb_ℤ, leb_ℤ,
}
use rzp_rebound.Action
use rzp_rebound.Time.{Instant, Location, before, is_zero, sub_time}
use rzp_rebound.Quiet
use rzp_rebound.Classify.{unclassified, never_retry, eq_class}
use rzp_rebound.Policy.Sources.{
  SourceParams, known_source, is_lawful_action, is_contact_action, is_notify_action,
  is_terminal_source_status,
}
use rzp_rebound.Policy.Model.{Verdict, deny, escalate, Rule, Reason, Config, State, Request}

-- The local variables of Evaluate that the rules read, after the two normalisations.
pub record Scene : Type 0 where
  pub kolkata : Option Location
  pub cfg : Config
  pub now : Instant
  pub state : State
  pub req : Request
  pub params : SourceParams
  pub safe : Bool

pub record Ruling : Type 0 where
  pub verdict : Verdict
  pub rule : Rule
  pub reason : Reason
  pub replay : Bool

-- decide(verdict, rule, reason)
abbrev pub decide : Verdict → Rule → Reason → Option Ruling
decide v rule reason = some (record { verdict = v; rule = rule; reason = reason; replay = false })

-- R8
unfoldable pub kill_switch : Scene → Option Ruling
kill_switch s =
    if s.cfg.kill_switch || s.state.kill_switch_engaged
    then decide deny Rule.kill_switch Reason.halted
    else none

-- R9
unfoldable pub idempotency : Scene → Option Ruling
idempotency s =
    if s.state.idempotency_key_seen
    then some (record {
      verdict = deny;
      rule = Rule.idempotency;
      reason = Reason.replayed;
      replay = true;
    })
    else none

-- R7
unfoldable pub unknown_fail_closed : Scene → Option Ruling
unknown_fail_closed s =
    if not (known_source s.req.source)
    then decide escalate Rule.unknown_fail_closed (Reason.unknown_source s.req.source)
    else if not (is_lawful_action s.req.action)
    then decide escalate Rule.unknown_fail_closed (Reason.unlawful_action s.req.action)
    else if s.params.requires_signal && not s.req.signal_present
    then decide escalate Rule.unknown_fail_closed Reason.no_failure_signal
    else if s.req.signal_present && eq_class s.req.class unclassified
    then decide escalate Rule.unknown_fail_closed Reason.unreadable_failure
    else none

-- R11
unfoldable pub not_yet_due : Scene → Option Ruling
not_yet_due s =
    if not s.safe && ltb_ℤ (pos 0) s.params.grace
    then (if is_zero s.req.at_risk_since
        then decide deny Rule.not_yet_due (Reason.no_at_risk_instant s.params.grace s.req.source)
        else if ltb_ℤ (sub_time s.now s.req.at_risk_since) s.params.grace
        then decide deny Rule.not_yet_due
            (Reason.inside_grace (sub_time s.now s.req.at_risk_since) s.params.grace s.req.source)
        else none)
    else none

-- R10
unfoldable pub no_contact_channel : Scene → Option Ruling
no_contact_channel s =
    if is_contact_action s.req.action
    then (if not s.req.has_email && not s.req.has_contact
        then decide escalate Rule.no_contact_channel Reason.no_channel
        else if s.req.action == Action.notify_email && not s.req.has_email
        then decide escalate Rule.no_contact_channel Reason.no_email
        else if s.req.action == Action.notify_sms && not s.req.has_contact
        then decide escalate Rule.no_contact_channel Reason.no_phone
        else none)
    else none

-- R4
unfoldable pub never_contact : Scene → Option Ruling
never_contact s =
    if is_contact_action s.req.action
    then (if eq_class s.req.class never_retry
        then decide escalate Rule.never_contact Reason.risk_refused
        else if is_terminal_source_status s.req.source_status
        then decide escalate Rule.never_contact (Reason.terminal_status s.req.source_status)
        else if leb_ℤ s.req.amount_due_paise (pos 0)
        then decide escalate Rule.never_contact Reason.nothing_outstanding
        else none)
    else none

-- R15
unfoldable pub promise_hold : Scene → Option Ruling
promise_hold s =
    if not s.safe && not (is_zero s.req.promise_hold_until) && before s.now s.req.promise_hold_until
    then decide deny Rule.promise_hold (Reason.promised_until s.req.promise_hold_until)
    else none

-- The zone of the settings, which `with_defaults` has filled in.
abbrev pub contact_zone : Scene → Location
contact_zone s = elim s.cfg.contact_location [ none ↦ Quiet.ist s.kolkata | some loc ↦ loc ]

-- R12
unfoldable pub quiet_hours : Scene → Option Ruling
quiet_hours s =
    if is_notify_action s.req.action
      && not (Quiet.contains s.kolkata s.cfg.contact_window s.now s.cfg.contact_location)
    then decide deny Rule.quiet_hours
        (Reason.outside_window s.now (contact_zone s) s.cfg.contact_window)
    else none

-- R13
unfoldable pub disputed : Scene → Option Ruling
disputed s =
    if not s.safe && s.req.disputed then decide escalate Rule.disputed Reason.contested else none

-- R3
unfoldable pub human_approval : Scene → Option Ruling
human_approval s =
    if s.req.action == Action.cancel_write_off
      && ltb_ℤ s.cfg.write_off_floor_paise s.req.amount_due_paise
    then decide escalate Rule.human_approval
        (Reason.write_off_above s.req.amount_due_paise s.cfg.write_off_floor_paise)
    else if not s.safe && ltb_ℤ s.cfg.amount_ceiling_paise s.req.amount_due_paise
    then decide escalate Rule.human_approval
        (Reason.above_ceiling s.req.amount_due_paise s.cfg.amount_ceiling_paise)
    else none

-- R1
unfoldable pub max_touches : Scene → Option Ruling
max_touches s =
    if is_contact_action s.req.action && leb_ℤ s.params.max_touches s.state.touches_made
    then decide escalate Rule.max_touches
        (Reason.touches_spent s.state.touches_made s.params.max_touches s.req.source)
    else none

-- R2
unfoldable pub cooldown : Scene → Option Ruling
cooldown s =
    let elapsed = sub_time s.now s.state.last_touch_at in
    if is_contact_action s.req.action
      && not (is_zero s.state.last_touch_at)
      && ltb_ℤ elapsed s.params.cooldown
    then decide deny Rule.cooldown (Reason.inside_cooldown elapsed s.params.cooldown s.req.source)
    else none

-- R6
unfoldable pub notify_rate : Scene → Option Ruling
notify_rate s =
    let elapsed = sub_time s.now s.state.last_notify_at in
    if is_notify_action s.req.action
      && not (is_zero s.state.last_notify_at)
      && ltb_ℤ elapsed s.cfg.notify_window
    then decide deny Rule.notify_rate (Reason.inside_send_window elapsed s.cfg.notify_window)
    else none

-- R5
unfoldable pub action_budget : Scene → Option Ruling
action_budget s =
    if not s.safe && leb_ℤ s.cfg.action_budget s.state.actions_this_run
    then decide deny Rule.action_budget
        (Reason.budget_spent s.state.actions_this_run s.cfg.action_budget)
    else none
