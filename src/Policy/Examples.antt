-- ===== src/Policy/Examples.antt =====
-- The gate on one item: a customer with an email address whose payment failed an hour ago.
use rzp_rebound.Prelude.{
  ◌≡◌, refl, ◌↔◌, inl, true, false, none, some, pos, ◌*◌, ◌+◌, arith, OneOf, OneOf-contains,
  false≢true, lookup,
}
use rzp_rebound.Action
use rzp_rebound.Time.{Instant, second, unix_epoch, fixed_zone, zero_time, sub_time, minute_of_day}
use rzp_rebound.Quiet.{always_open, ist_offset_seconds}
use rzp_rebound.Classify.{unclassified, retry_eligible}
use rzp_rebound.Policy.{
  Platform, Config, State, Request, allow, rule_ids, scene, evaluate, params_for, params_row,
  first_ruling, normalize_state, known_source, is_lawful_action, is_contact_action,
  is_notify_action, is_safe_action, is_terminal_source_status, lawful_actions, normalize_request,
  source_failed_payment, source_params,
}
use rzp_rebound.Policy.Rules
use rzp_rebound.Quiet
use rzp_rebound.Policy.Fires.{verdict_of, is_replay, FirstToFire}
use rzp_rebound.Policy.Order.{evaluate-FirstToFire}
use rzp_rebound.Policy.Allowed.{NoneFires, evaluate_allow_iff}
use rzp_rebound.Policy.Contact.{ContactIsFair, allowed_contact_fair}

abbrev platform : Platform
platform = record { kolkata = none; sha256_hex = λ text. text }

abbrev plain : Config
plain = record {
  max_touches_per_item = pos 0;
  cooldown = pos 0;
  notify_window = pos second;
  amount_ceiling_paise = pos 1500000;
  write_off_floor_paise = pos 10000;
  action_budget = pos 500;
  contact_window = always_open;
  contact_location = some (fixed_zone ist_offset_seconds);
  kill_switch = false;
  max_attempts_per_order = pos 0;
}

abbrev now : Instant
now = (unix_epoch + 1_700_000_000) * second

abbrev fresh : State
fresh = record {
  touches_made = pos 0;
  last_touch_at = zero_time;
  last_notify_at = zero_time;
  actions_this_run = pos 0;
  kill_switch_engaged = false;
  idempotency_key_seen = false;
  attempts_made = pos 0;
  last_action_at = zero_time;
}

abbrev email : Request
email = record {
  risk_item_id = "ri_1";
  source = source_failed_payment;
  action = Action.notify_email;
  class = retry_eligible;
  signal_present = true;
  amount_paise = pos 50000;
  amount_due_paise = pos 50000;
  has_email = true;
  has_contact = false;
  source_status = "created";
  disputed = false;
  at_risk_since = (unix_epoch + 1_699_996_400) * second;
  promise_hold_until = zero_time;
  touch_no = pos 1;
  order_id = "";
  attempt_no = pos 0;
}

abbrev escalation : Request
escalation = record email { action = Action.escalate }

abbrev unreadable : Request
unreadable = record escalation { class = unclassified }

abbrev retry : Request
retry = record email { action = "retry" }

email_allowed : (evaluate platform plain now fresh email).verdict ≡ allow
unfolding evaluate scene normalize_request normalize_state params_for params_row first_ruling
    Rules.kill_switch Rules.idempotency Rules.unknown_fail_closed Rules.not_yet_due
    Rules.no_contact_channel Rules.never_contact Rules.promise_hold Rules.quiet_hours Rules.disputed
    Rules.human_approval Rules.max_touches Rules.cooldown Rules.notify_rate Rules.action_budget
    known_source is_lawful_action is_contact_action is_notify_action is_safe_action
    is_terminal_source_status Quiet.contains lookup source_params sub_time minute_of_day always_open
email_allowed = refl

evaluate-FirstToFire_example :
    let d = evaluate platform plain now fresh email in
    FirstToFire (scene platform plain now fresh email) rule_ids d.rule_id
    × (d.verdict ≡ verdict_of d.rule_id)
    × (d.idempotent_replay ≡ is_replay d.rule_id)
evaluate-FirstToFire_example = evaluate-FirstToFire platform plain now fresh email

evaluate_allow_iff_example :
    ((evaluate platform plain now fresh email).verdict ≡ allow)
    ↔ NoneFires (scene platform plain now fresh email)
evaluate_allow_iff_example = evaluate_allow_iff platform plain now fresh email

allowed_contact_fair_example : ContactIsFair (scene platform plain now fresh email)
unfolding params_for params_row lookup source_params
allowed_contact_fair_example =
    allowed_contact_fair platform plain now fresh email email_allowed (inl refl)
      (omega arith, omega arith) (omega arith)

retry_unlawful : ¬ OneOf "retry" lawful_actions
retry_unlawful h = false≢true (OneOf-contains lawful_actions "retry" h)
