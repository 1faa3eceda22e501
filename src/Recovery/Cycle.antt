-- ===== src/Recovery/Cycle.antt =====
-- internal/recovery/recovery.go: ProcessOrder, the cycle of one order. What New requires is given,
-- and the span is left out. `fuel` is that of the poll.
pub mod Evidence
use rzp_rebound.Prelude.{
  ℕ, String, ◌<>◌, inl, inr, Bool, true, false, not, ◌&&◌, ◌==◌, if◌then◌else◌, Option, none, some,
  List, [], ◌∷◌, ◌++◌, Dict, insert, length, ℤ, pos, decimal,
}
use rzp_rebound.Classify
use rzp_rebound.Classify.{Class, unclassified, classify}
use rzp_rebound.Gateway.{order_status_paid}
use rzp_rebound.Razorpay.{Order, Answer}
use rzp_rebound.Audit.{
  Event, Row, RecordError, kind_classified, kind_action_skipped, row_of, bump, seq_of,
}
use rzp_rebound.Poller.{Poller, PollResult, Polled, finished, out_of_fuel, poll_until_terminal}
use rzp_rebound.Recovery.{
  AgentVisibleOrder, ActionResult, Surface, State, action_none, record_row, bool_text, failure_from,
}

abbrev pub kind_action_taken : String
kind_action_taken = "action_taken"

abbrev pub kind_outcome_observed : String
kind_outcome_observed = "outcome_observed"

-- The Outcome of the source.
pub record Observed : Type 0 where
  pub order_id : String
  pub class : Class
  pub action_kind : String
  pub final_order_status : String
  pub recovered : Bool
  pub claimed_recovered : Bool
  pub timed_out : Bool
  pub policy_verdict : String
  pub policy_rule : String
  pub escalated : Bool
  pub side_effect : Bool
  pub off_port_calls : ℤ
  pub attempts_seen : ℤ
  pub amount_paid_paise : ℤ
  pub events : List Row

pub data CycleError : Type 0 where
  poll_failed : String → CycleError
  not_recorded : String → RecordError → CycleError
  read_back_failed : String → CycleError
  action_failed : String → CycleError

-- An ActionFunc; its error is a text.
abbrev pub ActionFunc : Type 0 → Type 0
ActionFunc W = State W → AgentVisibleOrder → Class → State W × (ActionResult × Option String)

-- DoNothing
unfoldable pub do_nothing : {W : Type 0} → ActionFunc W
do_nothing s order class = (
  s,
  (
    record {
      kind = action_none;
      claimed_recovered = false;
      policy_verdict = "";
      policy_rule = "";
      escalated = false;
      side_effect = false;
      gateway_calls = pos 0;
      detail = [];
    },
    none,
  ),
)

unfoldable pub unobserved : String → Observed
unobserved id = record {
  order_id = id;
  class = unclassified;
  action_kind = "";
  final_order_status = "";
  recovered = false;
  claimed_recovered = false;
  timed_out = false;
  policy_verdict = "";
  policy_rule = "";
  escalated = false;
  side_effect = false;
  off_port_calls = pos 0;
  attempts_seen = pos 0;
  amount_paid_paise = pos 0;
  events = [];
}

unfoldable pub polled_outcome : Observed → PollResult → Observed
polled_outcome out res = record out {
  timed_out = res.timed_out;
  attempts_seen = pos (length res.payments);
  class = classify (failure_from res.failed_payment);
}

unfoldable pub classified_event : Observed → PollResult → Event
classified_event out res = record {
  order_id = out.order_id;
  kind = kind_classified;
  class = Classify.string out.class;
  proposed_action = "";
  policy_verdict = "";
  policy_rule = "";
  detail =
      ("polled_order_status", res.order.status)
      ∷ ("attempts_seen", decimal (pos (length res.payments)))
      ∷ ("poll_timed_out", bool_text res.timed_out)
      ∷ [];
}

unfoldable pub acted_outcome : Observed → ActionResult → Observed
acted_outcome out r = record out {
  action_kind = if r.kind == "" then action_none else r.kind;
  claimed_recovered = r.claimed_recovered;
  policy_verdict = r.policy_verdict;
  policy_rule = r.policy_rule;
  escalated = r.escalated;
  side_effect = r.side_effect;
  off_port_calls = r.gateway_calls;
}

-- The entries of the second map put over those of the first.
unfoldable pub merge : Dict String → Dict String → Dict String
merge into [] = into
merge into ((key, value) ∷ more) = merge (insert key value into) more

unfoldable pub action_row_kind : ActionResult → String → Option String → String
action_row_kind r kind err =
    if not r.side_effect && kind == action_none
    then elim err [ none ↦ kind_action_skipped | some e ↦ kind_action_taken ]
    else kind_action_taken

unfoldable pub action_event : Observed → ActionResult → Option String → Event
action_event out r err =
    let claims = merge (("claimed_recovered", bool_text r.claimed_recovered) ∷ []) r.detail in
    let detail = insert "side_effect" (bool_text r.side_effect) claims in
    record {
      order_id = out.order_id;
      kind = action_row_kind r out.action_kind err;
      class = Classify.string out.class;
      proposed_action = out.action_kind;
      policy_verdict = r.policy_verdict;
      policy_rule = r.policy_rule;
      detail = elim err [ none ↦ detail | some e ↦ insert "action_error" e detail ];
    }

-- What is read back of the order after the action.
unfoldable pub final_outcome : Observed → Order → Observed
final_outcome out order = record out {
  final_order_status = order.status;
  recovered = order.status == order_status_paid;
  amount_paid_paise = order.amount_paid;
}

unfoldable pub observed_event : Observed → Event
observed_event out = record {
  order_id = out.order_id;
  kind = kind_outcome_observed;
  class = Classify.string out.class;
  proposed_action = out.action_kind;
  policy_verdict = out.policy_verdict;
  policy_rule = out.policy_rule;
  detail =
      ("final_order_status", out.final_order_status)
      ∷ ("recovered", bool_text out.recovered)
      ∷ ("claimed_recovered", bool_text out.claimed_recovered)
      ∷ ("amount_paid_paise", decimal out.amount_paid_paise)
      ∷ [];
}

-- What a cycle returns, with the state that it leaves.
pub record Cycled (W : Type 0) : Type 0 where
  pub state : State W
  pub outcome : Observed
  pub err : Option CycleError

-- The error that ProcessOrder ends with, for that of the action
unfoldable pub last_error : Option String → Option CycleError
last_error none = none
last_error (some e) = some (action_failed e)

module _ {W : Type 0} (u : Surface W) where
  -- The row of an event, as it is appended to the outcome.
  unfoldable pub row_for : State W → Event → Row
  row_for s ev =
      row_of u.services (bump (seq_of s.recorder ev.order_id)) (u.clock.now s.world)
        (u.span s.world) ev

  abbrev ended : State W → Observed → Option CycleError → Cycled W
  ended s out err = record { state = s; outcome = out; err = err }

  -- o.record, and what is done after a row that went down
  unfoldable pub then_record :
      State W → Observed → Event → (State W → Observed → Cycled W) → Cycled W
  then_record s out ev next =
      let (s', row) = record_row u s ev in
      elim row [
        | some e ↦ ended s' out (some (not_recorded ev.kind e))
        | none ↦ next s' (record out { events = out.events ++ row_for s ev ∷ [] })
      ]

  -- ProcessOrder from the reading back on
  unfoldable pub read_back_order : Option String → State W → Observed → Cycled W
  read_back_order action_err s out =
      let (w, answer) = u.port.fetch_order s.world out.order_id in
      let s' = record s { world = w } in
      elim answer [
        | inl e ↦ ended s' out (some (read_back_failed e))
        | inr order ↦
            let seen = final_outcome out order in
            then_record s' seen (observed_event seen)
              (λ s'' told. ended s'' told (last_error action_err))
      ]

  -- ProcessOrder from the action on
  unfoldable pub take_action : ActionFunc W → AgentVisibleOrder → State W → Observed → Cycled W
  take_action action order s out =
      let (s', (r, err)) = action s order out.class in
      let acted = acted_outcome out r in
      then_record s' acted (action_event acted r err) (read_back_order err)

  -- ProcessOrder from a poll that ended without an error on
  unfoldable pub after_poll : ActionFunc W → AgentVisibleOrder → State W → PollResult → Cycled W
  after_poll action order s res =
      let out = polled_outcome (unobserved order.order_id) res in
      then_record s out (classified_event out res) (take_action action order)

  -- o.ProcessOrder; `none` is a poll that is still going on.
  unfoldable pub process_order :
      Poller → ActionFunc W → ℕ → State W → AgentVisibleOrder → Option (Cycled W)
  process_order p action fuel s order =
      let (w, polled) = poll_until_terminal u.port u.clock p fuel s.world order.order_id in
      let s' = record s { world = w } in
      elim polled [
        | out_of_fuel ↦ none
        | finished res err ↦ elim err [
          | some e ↦ some (ended s' (unobserved order.order_id) (some (poll_failed e)))
          | none ↦ some (after_poll action order s' res)
        ]
      ]
