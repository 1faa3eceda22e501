-- ===== src/Intervene.antt =====
-- internal/intervene: the engine that applies one lawful action to one item, at most once for a
-- key, and writes one row about each. The locks are left out: a call of Apply is one step, and the
-- slot that is taken but not done is no slot.
mod Calls
mod Notify
mod Dispatch
pub mod Traces
mod Memory
pub mod Warranted
pub mod Once
pub mod Rows
pub mod Examples
unfoldable pub use Calls.*
unfoldable pub use Notify.*
unfoldable pub use Dispatch.*
use Prim.Native.String.{slice}
use rzp_rebound.Prelude.{
  String, ◌<>◌, Bool, true, false, not, ◌||◌, ◌&&◌, ◌==◌, if◌then◌else◌, Option, none, some, List,
  [], ◌∷◌, ◌++◌, Dict, insert, lookup,
}
use rzp_rebound.Action
use rzp_rebound.Action.{is_lawful}
use rzp_rebound.Time.{Instant}
use rzp_rebound.RiskItem.{RiskItem, PayHandle, Outcome, dedupe_key}
use rzp_rebound.Audit.{
  Event, Recorder, RecordError, new_recorder, record_event, kind_action_skipped,
  kind_intervention_applied, kind_escalation_raised, kind_promise_logged,
}

-- `guard` holds the outcomes of the slots that are done. `made` is what an engine has called.
pub record Engine : Type 0 where
  pub guard : Dict Outcome
  pub recorder : Recorder
  pub made : List Call

abbrev pub new_engine : Engine
new_engine = record { guard = []; recorder = new_recorder; made = [] }

-- One call of Apply: its arguments, the instants that the clocks of the engine and the recorder
-- read, and the tracing span.
pub record ApplyArgs : Type 0 where
  pub ctx : Context
  pub item : RiskItem
  pub action : String
  pub now : Instant
  pub recorded : Instant
  pub span : Option (String × String)

pub data ApplyError : Type 0 where
  not_called : String → ApplyError
  not_recorded : String → String → RecordError → ApplyError

-- policy.ShortKey
unfoldable pub short_key : String → String
short_key key = slice key 0 12

unfoldable pub guarded : String → Bool
guarded action = not (action == Action.do_nothing)

-- e.idempotencyKey
unfoldable pub apply_key : Context → RiskItem → String → String
apply_key ctx item action =
    if not (ctx.idempotency_key == "")
    then ctx.idempotency_key <> ("|" <> action)
    else item.id <> ("|" <> action)

unfoldable pub event_kind : Outcome → Bool → Bool → String
event_kind out attempted replay =
    if replay
    then kind_action_skipped
    else if not attempted
    then kind_action_skipped
    else if out.accepted && (out.action == Action.escalate)
    then kind_escalation_raised
    else if out.accepted && (out.action == Action.log_promise)
    then kind_promise_logged
    else kind_intervention_applied

-- An entry of the detail that is set only for a text that is not empty.
abbrev optional : String → String → Dict String
optional key value = if value == "" then [] else (key, value) ∷ []

unfoldable pub detail_of : RiskItem → Outcome → String → Bool → Dict String
detail_of item out key replay =
    ("risk_item_id", item.id)
      ∷ ("source", item.source)
      ∷ ("accepted", if out.accepted then "true" else "false")
      ∷ optional "observable" out.observable
    ++ optional "handle_kind" out.handle.kind
    ++ optional "handle_id" out.handle.id
    ++ optional "handle_url" out.handle.url
    ++ optional "error" out.err
    ++ (if key == "" then [] else ("idempotency_key", short_key key) ∷ [])
    ++ (if replay then ("idempotent_replay", "true") ∷ [] else [])

unfoldable pub event_of : RiskItem → Outcome → String → Bool → Bool → Event
event_of item out key attempted replay = record {
  order_id = dedupe_key item;
  kind = event_kind out attempted replay;
  class = "";
  proposed_action = out.action;
  policy_verdict = "";
  policy_rule = "";
  detail = detail_of item out key replay;
}

-- e.record
unfoldable pub record_apply :
    Setup → Recorder → ApplyArgs → Outcome → String → Bool → Bool → Recorder × Option RecordError
record_apply s r p out key attempted replay =
    record_event s.services r p.recorded p.span (event_of p.item out key attempted replay)

abbrev pub call_errors : Option String → List ApplyError
call_errors none = []
call_errors (some text) = not_called text ∷ []

-- errors.Join of the error of the call and that of the row
abbrev joined : ApplyArgs → Outcome → Option String → Option RecordError → List ApplyError
joined p out call row =
    call_errors call ++ elim row [ none ↦ [] | some e ↦ not_recorded out.action p.item.id e ∷ [] ]

-- What Apply answers: the outcome and its errors, none of them for a nil error.
pub record Applied : Type 0 where
  pub outcome : Outcome
  pub errors : List ApplyError

-- The end of Apply that every path shares: the row is written after the guard is set.
unfoldable pub finish :
    Setup → Engine → ApplyArgs → Outcome → String → Bool → Bool → Option String → Engine × Applied
finish s e p out key attempted replay call_err =
    let written = record_apply s e.recorder p out key attempted replay in
    (
      record e { recorder = written.0 },
      record { outcome = out; errors = joined p out call_err written.1 },
    )

-- The outcome that Apply starts from.
unfoldable pub start : ApplyArgs → Outcome
start p = record {
  action = p.action;
  accepted = false;
  observable = "";
  handle = record { kind = ""; url = ""; id = "" };
  at = p.now;
  err = "";
}

-- What Apply dispatches, over the calls that the engine has made.
unfoldable pub dispatched : Setup → Engine → ApplyArgs → Step
dispatched s e p = dispatch s e.made p.ctx p.item p.action (start p)

-- `if callErr != nil && out.Err == ""`
unfoldable pub with_error : Step → Outcome
with_error step = elim step.call_err [
  | none ↦ step.out
  | some text ↦ if step.out.err == "" then record step.out { err = text } else step.out
]

-- The guard after a dispatch.
unfoldable pub seal : Dict Outcome → String → Outcome → String → Dict Outcome
seal guard key out action = if out.accepted && guarded action then insert key out guard else guard

-- Apply on a lawful action whose slot is not done
unfoldable pub apply_fresh : Setup → Engine → ApplyArgs → String → Engine × Applied
apply_fresh s e p key =
    let step = dispatched s e p in
    let out = with_error step in
    let sealed = record e { guard = seal e.guard key out p.action; made = e.made ++ step.calls } in
    finish s sealed p out key step.attempted false step.call_err

-- e.Apply
unfoldable pub apply : Setup → Engine → ApplyArgs → Engine × Applied
unfolding lookup
apply s e p =
    let key = apply_key p.ctx p.item p.action in
    if not (is_lawful p.action)
    then finish s e p (record (start p) { err = refusal_unlawful_action }) "" false false none
    else elim (lookup key e.guard) [
      | some first ↦ finish s e p first key false true none
      | none ↦ apply_fresh s e p key
    ]

-- The calls of Apply that a caller makes one after another.
unfoldable pub apply_all : Setup → Engine → List ApplyArgs → Engine × List Applied
apply_all s e [] = (e, [])
apply_all s e (p ∷ ps) =
    let (next, answer) = apply s e p in
    let (last, answers) = apply_all s next ps in (last, answer ∷ answers)
