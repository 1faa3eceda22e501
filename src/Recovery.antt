-- ===== src/Recovery.antt =====
-- internal/recovery: the retry engine. The state `W` of everything outside the program is passed
-- on by each call, and one clock serves all the components, as the commands build them.
mod Examples
pub mod Arms
pub mod Cycle
pub mod Fake
use rzp_rebound.Prelude.{
  String, ◌<>◌, ◌⊎◌, Bool, true, false, ◌==◌, if◌then◌else◌, Option, none, some, Dict, ℤ, pos,
}
use rzp_rebound.Time.{Instant}
use rzp_rebound.Classify
use rzp_rebound.Classify.{Class, Failure}
use rzp_rebound.Policy.{Platform, Config, Reason}
use rzp_rebound.Razorpay.{Payment}
use rzp_rebound.Razorpay.Port.{Port, Clock}
use rzp_rebound.Audit.{Services, Event, Recorder, RecordError, record_event}
use rzp_rebound.OrderStore.{Store}

abbrev pub action_none : String
action_none = "none"

abbrev pub action_retry_same_instrument : String
action_retry_same_instrument = "retry_same_instrument"

abbrev pub action_request_reauth : String
action_request_reauth = "request_reauth"

abbrev pub action_request_new_instrument : String
action_request_new_instrument = "request_new_instrument"

abbrev pub action_do_nothing : String
action_do_nothing = "do_nothing"

-- ActionForClass
unfoldable pub action_for_class : Class → String
action_for_class Class.transient_retry_eligible = action_retry_same_instrument
action_for_class Class.retry_eligible = action_retry_same_instrument
action_for_class Class.reauth_required = action_request_reauth
action_for_class Class.new_instrument_required = action_request_new_instrument
action_for_class _ = action_do_nothing

pub record AgentVisibleOrder : Type 0 where
  pub order_id : String
  pub amount_paise : ℤ
  pub currency : String
  pub receipt : String

pub record ActionResult : Type 0 where
  pub kind : String
  pub claimed_recovered : Bool
  pub policy_verdict : String
  pub policy_rule : String
  pub escalated : Bool
  pub side_effect : Bool
  pub gateway_calls : ℤ
  pub detail : Dict String

pub record AttemptRecord : Type 0 where
  pub payment_id : String
  pub gateway_calls : ℤ

-- An Attempter makes one payment attempt; its error is a text.
abbrev pub Attempter : Type 0 → Type 0
Attempter W = W → AgentVisibleOrder → String → W × (AttemptRecord × Option String)

-- The Surface of the arms, with the clock and the tracing span, what the recorder calls, and two
-- formats: a text under the verb %q, and the reason of a decision.
pub record Surface (W : Type 0) : Type 0 where
  pub port : Port W
  pub attempter : Attempter W
  pub clock : Clock W
  pub span : W → Option (String × String)
  pub services : Services
  pub quoted : String → String
  pub reason_text : Reason → String
  pub card : String
  pub currency : String

-- What the components share and change.
pub record State (W : Type 0) : Type 0 where
  pub world : W
  pub store : Store
  pub recorder : Recorder

-- err.Error() of an error of the recorder
unfoldable pub record_error_text : RecordError → String
record_error_text RecordError.no_order_id = "audit: event has no order id"
record_error_text (RecordError.no_kind id) = "audit: event has no kind: order " <> id
record_error_text (RecordError.not_encoded id e) =
    "audit: encode the row for " <> (id <> (": " <> e))
record_error_text (RecordError.not_written id e) =
    "audit: write the row for " <> (id <> (": " <> e))

-- recorder.Record, at what the clock says now
unfoldable pub record_row :
    {W : Type 0} → Surface W → State W → Event → State W × Option RecordError
record_row u s ev =
    let (recorder, err) =
      record_event u.services s.recorder (u.clock.now s.world) (u.span s.world) ev in
    (record s { recorder = recorder }, err)

unfoldable pub bool_text : Bool → String
bool_text b = if b then "true" else "false"

-- FailureFrom
unfoldable pub failure_from : Option Payment → Failure
failure_from none = record { code = ""; reason = ""; source = ""; step = ""; method = "" }
failure_from (some p) = record {
  code = p.error_code;
  reason = p.error_reason;
  source = p.error_source;
  step = p.error_step;
  method = p.method;
}
