-- ===== src/ToolGate.antt =====
-- internal/mcpserver/gate.go: the gate around every call of a tool, with what it reads of the server
-- in mcpserver.go. The handlers of the tools are a function of the server's state; the protocol
-- around them, the spans and the locks are left out, and the decoding of the item id is given.
pub mod Contained
mod Examples
use rzp_rebound.Prelude.{
  String, ◌<>◌, Bool, true, false, not, ◌&&◌, ◌||◌, ◌==◌, if◌then◌else◌, Option, none, some, List,
  [], ◌∷◌, Dict, lookup, insert, lookup_or, is_some, contains, ℤ, pos, leb_ℤ, ◌+ℤ◌, wrap64, decimal,
}
use rzp_rebound.Time.{Instant}
use rzp_rebound.RiskItem.{RiskItem}
use rzp_rebound.Policy.{Rule, Verdict, rule_text, verdict_text}
use rzp_rebound.Audit.{Services, Event, Recorder, RecordError, record_event}

abbrev pub kind_tool_call : String
kind_tool_call = "tool_call"

abbrev pub rule_tool_allowlist : String
rule_tool_allowlist = "M1-TOOL-ALLOWLIST"

abbrev pub rule_item_allowlist : String
rule_item_allowlist = "M2-ITEM-ALLOWLIST"

abbrev pub rule_decision_first : String
rule_decision_first = "M3-DECISION-REQUIRED"

abbrev pub action_tools : List String
action_tools =
    "notify_item" ∷ "create_payment_link_for_item" ∷ "resend_link_for_item" ∷ "log_promise"
    ∷ "escalate_item" ∷ []

abbrev pub tool_names : List String
tool_names = "list_risk_items" ∷ "get_risk_item" ∷ "record_decision" ∷ action_tools

unfoldable pub is_action_tool : String → Bool
is_action_tool name = contains action_tools name

unfoldable pub is_known_tool : String → Bool
is_known_tool name = contains tool_names name

-- The Decision of the package.
pub record Chosen : Type 0 where
  pub item_id : String
  pub action : String
  pub reasoning : String

-- What the gate counts of an item.
pub record Tally : Type 0 where
  pub tool_calls : ℤ
  pub denied_tool_calls : ℤ

-- The part of a Server that does not change; `quoted` is a text under the verb %q.
pub record ToolServer : Type 0 where
  pub kill_switch_engaged : Bool
  pub action_budget : ℤ
  pub arm : String
  pub services : Services
  pub quoted : String → String

pub record ToolState : Type 0 where
  pub allowed : Dict RiskItem
  pub order : List String
  pub decisions : Dict Chosen
  pub tallies : Dict Tally
  pub actions_spent : ℤ
  pub tool_calls : ℤ
  pub recorder : Recorder

pub record GateDecision : Type 0 where
  pub verdict : Verdict
  pub rule : String
  pub reason : String

unfoldable pub passes : GateDecision → Bool
passes d = elim d.verdict [ Verdict.allow ↦ true | _ ↦ false ]

abbrev pub allow_gate : GateDecision
allow_gate = record {
  verdict = Verdict.allow;
  rule = rule_text Rule.default_allow;
  reason = "no middleware rule refused this call";
}

abbrev refusal : String → String → GateDecision
refusal rule reason = record { verdict = Verdict.deny; rule = rule; reason = reason }

-- The rules of evaluateGate about an item that an action tool names
unfoldable pub evaluate_action : ToolServer → ToolState → String → GateDecision
evaluate_action u s item =
    if item == ""
    then refusal rule_item_allowlist "an action tool has to name the risk item it is acting on"
    else if not (is_some (lookup item s.decisions))
    then refusal rule_decision_first (
        "no decision is on the record for this risk item. Call record_decision with "
        <> "the item id, the action you have chosen, and why, and then act.")
    else if leb_ℤ u.action_budget s.actions_spent
    then refusal (rule_text Rule.action_budget) (
        "this invocation has spent "
        <> (decimal s.actions_spent
            <> (" of its " <> (decimal u.action_budget <> " action budget"))))
    else allow_gate

unfoldable pub evaluate_gate : ToolServer → ToolState → String → String → GateDecision
evaluate_gate u s tool item =
    if u.kill_switch_engaged
    then refusal (rule_text Rule.kill_switch) "the kill switch is engaged, so no tool runs"
    else if not (is_known_tool tool)
    then refusal rule_tool_allowlist
        (u.quoted tool <> " is not one of the tools this server serves")
    else if not (item == "") && not (is_some (lookup item s.allowed))
    then refusal rule_item_allowlist
        ("risk item " <> (item <> " is not in this batch, so nothing here can act on it"))
    else if not (is_action_tool tool)
    then allow_gate
    else evaluate_action u s item

unfoldable pub plus_one : ℤ → ℤ
unfolding wrap64 ◌+ℤ◌
plus_one n = wrap64 (n +ℤ pos 1)

-- s.tally(itemID)
unfoldable pub tally_of : ToolState → String → Tally
unfolding lookup_or
tally_of s item =
    lookup_or (record { tool_calls = pos 0; denied_tool_calls = pos 0 }) item s.tallies

-- `s.allowed[itemID].ID == ""`
unfoldable pub is_stranger : ToolState → String → Bool
is_stranger s item = elim (lookup item s.allowed) [ none ↦ true | some found ↦ found.id == "" ]

unfoldable pub count_tool_call : ToolState → String → GateDecision → ToolState
unfolding insert
count_tool_call s item d =
    let counted = record s { tool_calls = plus_one s.tool_calls } in
    let t = tally_of s item in
    let t' = record t {
      tool_calls = plus_one t.tool_calls;
      denied_tool_calls = if passes d then t.denied_tool_calls else plus_one t.denied_tool_calls;
    } in
    if item == "" || is_stranger s item
    then counted
    else record counted { tallies = insert item t' s.tallies }

unfoldable pub ledger_key : ToolState → String → String
ledger_key s item =
    if not (item == "") then item else elim s.order [ [] ↦ "" | (first ∷ _) ↦ first ]

unfoldable pub tool_call_event : ToolServer → ToolState → String → String → GateDecision → Event
tool_call_event u s tool item d = record {
  order_id = ledger_key s item;
  kind = kind_tool_call;
  class = "";
  proposed_action = tool;
  policy_verdict = verdict_text d.verdict;
  policy_rule = d.rule;
  detail =
      ("tool", tool)
      ∷ ("gate_verdict", verdict_text d.verdict)
      ∷ ("gate_rule", d.rule)
      ∷ ("gate_reason", d.reason)
      ∷ ("gate_layer", "middleware")
      ∷ ("requested_item_id", item)
      ∷ ("arm", u.arm)
      ∷ [];
}

-- What a call of a tool comes to.
pub data Gated (A : Type 0) : Type 0 where
  ran : A → Gated A
  refused : GateDecision → Gated A
  no_such_tool : GateDecision → Gated A
  row_failed : RecordError → Gated A

-- The middleware of s.gate(next) past its row
unfoldable pub dispatch_tool :
    {A : Type 0} → (ToolState → ToolState × A) → ToolState → GateDecision → ToolState × Gated A
dispatch_tool next s d =
    if not (passes d)
    then (s, if d.rule == rule_tool_allowlist then no_such_tool d else refused d)
    else (let (s', answer) = next s in (s', ran answer))

-- The middleware of s.gate(next), on a call of a tool; `next` is the handler.
unfoldable pub gate :
    {A : Type 0}
    → ToolServer
    → (ToolState → ToolState × A)
    → ToolState
    → Instant
    → Option (String × String)
    → String
    → String
    → ToolState × Gated A
gate u next s now span tool item =
    let d = evaluate_gate u s tool item in
    let counted = count_tool_call s item d in
    let (recorder, err) =
      record_event u.services counted.recorder now span (tool_call_event u counted tool item d) in
    let noted = record counted { recorder = recorder } in
    elim err [ some e ↦ (noted, row_failed e) | none ↦ dispatch_tool next noted d ]
