-- ===== src/Policy/Model.antt =====
-- The data of internal/policy/policy.go: verdicts, rule ids, settings, state, request, decision.
-- The text of a reason is kept as its format with the values put in, one constructor each.
use rzp_rebound.Prelude.{
  String, ◌<>◌, Bool, true, false, ◌==◌, List, [], ◌∷◌, Option, none, some, if◌then◌else◌, ℤ, pos,
  ltb_ℤ, leb_ℤ, eqb_ℤ, decimal,
}
use rzp_rebound.Time.{Instant, Duration, Location, second, is_zero}
use rzp_rebound.Quiet
use rzp_rebound.Quiet.{Window, ist}
use rzp_rebound.Classify.{Class}

pub data Verdict : Type 0 where
  allow deny escalate : Verdict

pub data Rule : Type 0 where
  default_allow max_touches cooldown human_approval never_contact : Rule
  action_budget notify_rate unknown_fail_closed kill_switch idempotency : Rule
  no_contact_channel not_yet_due quiet_hours disputed promise_hold : Rule

-- Every rule id, in evaluation order.
unfoldable pub rule_ids : List Rule
rule_ids =
    kill_switch ∷ idempotency ∷ unknown_fail_closed ∷ not_yet_due ∷ no_contact_channel
    ∷ never_contact ∷ promise_hold ∷ quiet_hours ∷ disputed ∷ human_approval ∷ max_touches
    ∷ cooldown ∷ notify_rate ∷ action_budget ∷ default_allow ∷ []

pub data Reason : Type 0 where
  halted replayed no_failure_signal unreadable_failure no_channel no_email no_phone : Reason
  risk_refused nothing_outstanding contested not_refused : Reason
  unknown_source : String → Reason
  unlawful_action : String → Reason
  no_at_risk_instant : Duration → String → Reason
  inside_grace : Duration → Duration → String → Reason
  terminal_status : String → Reason
  promised_until : Instant → Reason
  outside_window : Instant → Location → Window → Reason
  write_off_above : ℤ → ℤ → Reason
  above_ceiling : ℤ → ℤ → Reason
  touches_spent : ℤ → ℤ → String → Reason
  inside_cooldown : Duration → Duration → String → Reason
  inside_send_window : Duration → Duration → Reason
  budget_spent : ℤ → ℤ → Reason

pub record Config : Type 0 where
  pub max_touches_per_item : ℤ
  pub cooldown : Duration
  pub notify_window : Duration
  pub amount_ceiling_paise : ℤ
  pub write_off_floor_paise : ℤ
  pub action_budget : ℤ
  pub contact_window : Window
  pub contact_location : Option Location
  pub kill_switch : Bool
  pub max_attempts_per_order : ℤ

abbrev pub default_max_touches_per_item : ℤ
default_max_touches_per_item = pos 3

abbrev pub default_notify_window : Duration
default_notify_window = pos second

abbrev pub default_amount_ceiling_paise : ℤ
default_amount_ceiling_paise = pos 1500000

abbrev pub default_write_off_floor_paise : ℤ
default_write_off_floor_paise = pos 10000

abbrev pub default_action_budget : ℤ
default_action_budget = pos 500

-- The first positive of a field and its deprecated spelling, as the first two tests leave it.
touch_cap : ℤ → ℤ → ℤ
touch_cap current deprecated =
    let cap = if leb_ℤ current (pos 0) then deprecated else current in
    if ltb_ℤ cap (pos 0) then pos 0 else cap

-- `kolkata` is the tz database's answer for Asia/Kolkata.
unfoldable pub with_defaults : Option Location → Config → Config
unfolding touch_cap Quiet.with_default ist
with_defaults kolkata c =
    let cap = touch_cap c.max_touches_per_item c.max_attempts_per_order in
    record c {
      max_touches_per_item = cap;
      max_attempts_per_order = cap;
      notify_window =
          if leb_ℤ c.notify_window (pos 0) then default_notify_window else c.notify_window;
      amount_ceiling_paise =
          if leb_ℤ c.amount_ceiling_paise (pos 0)
          then default_amount_ceiling_paise
          else c.amount_ceiling_paise;
      write_off_floor_paise =
          if eqb_ℤ c.write_off_floor_paise (pos 0)
          then default_write_off_floor_paise
          else c.write_off_floor_paise;
      action_budget =
          if leb_ℤ c.action_budget (pos 0) then default_action_budget else c.action_budget;
      contact_window = Quiet.with_default c.contact_window;
      contact_location = elim c.contact_location [
        | none ↦ some (ist kolkata)
        | some loc ↦ some loc
      ];
    }

pub record State : Type 0 where
  pub touches_made : ℤ
  pub last_touch_at : Instant
  pub last_notify_at : Instant
  pub actions_this_run : ℤ
  pub kill_switch_engaged : Bool
  pub idempotency_key_seen : Bool
  pub attempts_made : ℤ
  pub last_action_at : Instant

-- State.normalize
unfoldable pub normalize_state : State → State
normalize_state s = record s {
  touches_made = if eqb_ℤ s.touches_made (pos 0) then s.attempts_made else s.touches_made;
  last_touch_at = if is_zero s.last_touch_at then s.last_action_at else s.last_touch_at;
}

pub record Request : Type 0 where
  pub risk_item_id : String
  pub source : String
  pub action : String
  pub class : Class
  pub signal_present : Bool
  pub amount_paise : ℤ
  pub amount_due_paise : ℤ
  pub has_email : Bool
  pub has_contact : Bool
  pub source_status : String
  pub disputed : Bool
  pub at_risk_since : Instant
  pub promise_hold_until : Instant
  pub touch_no : ℤ
  pub order_id : String
  pub attempt_no : ℤ

-- Request.normalize
unfoldable pub normalize_request : Request → Request
normalize_request r = record r {
  risk_item_id = if r.risk_item_id == "" then r.order_id else r.risk_item_id;
  touch_no = if eqb_ℤ r.touch_no (pos 0) then r.attempt_no else r.touch_no;
}

pub record Decision : Type 0 where
  pub verdict : Verdict
  pub rule_id : Rule
  pub reason : Reason
  pub remaining : ℤ
  pub idempotent_replay : Bool
  pub idempotency_key : String

-- d.Allowed()
unfoldable pub allowed : Decision → Bool
allowed d = elim d.verdict [ allow ↦ true | _ ↦ false ]

-- The hex digest is that of crypto/sha256, which is a parameter.
unfoldable pub idempotency_key : (String → String) → String → String → ℤ → String
idempotency_key sha256_hex risk_item_id action touch_no =
    sha256_hex (risk_item_id <> ("|" <> (action <> ("|" <> decimal touch_no))))
