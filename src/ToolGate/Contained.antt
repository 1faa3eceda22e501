-- ===== src/ToolGate/Contained.antt =====
-- What the gate of internal/mcpserver/gate.go lets run, and what it leaves of the rest.
use rzp_rebound.Prelude.{
  String, ◌≡◌, ◌≢◌, ◌⊎◌, ◌↔◌, inl, inr, refl, sym, ◌∙◌, true, false, ◌==◌, Option, [], ◌∷◌, ◌++◌,
  ap, lookup, is_some, OneOf, contains-OneOf, OneOf-contains, eq_iff, Bool-cases, false≢true,
  false_of_not_true, arith, ◌<ℤ◌,
}
use rzp_rebound.Time.{Instant}
use rzp_rebound.Audit.{Row}
use rzp_rebound.Audit.Written.{record_event-Written}
use rzp_rebound.ToolGate.{
  ToolServer, ToolState, GateDecision, Gated, ran, refused, no_such_tool, row_failed, action_tools,
  tool_names, is_action_tool, is_known_tool, kind_tool_call, rule_tool_allowlist, passes,
  evaluate_action, evaluate_gate, count_tool_call, tool_call_event, dispatch_tool, gate,
}

-- What has to hold of a call for its tool to run.
abbrev pub Permitted : ToolServer → ToolState → String → String → Type 0
Permitted u s tool item =
    (u.kill_switch_engaged ≡ false)
    × OneOf tool tool_names
    × ((item ≡ "") ⊎ (is_some (lookup item s.allowed) ≡ true))
    × ((¬ OneOf tool action_tools)
        ⊎ ((item ≢ "")
            × (is_some (lookup item s.decisions) ≡ true)
            × (s.actions_spent <ℤ u.action_budget)))

known_iff : (tool : String) → (is_known_tool tool ≡ true) ↔ OneOf tool tool_names
unfolding is_known_tool
known_iff tool = (contains-OneOf tool_names tool, OneOf-contains tool_names tool)

reads_iff : (tool : String) → (is_action_tool tool ≡ false) ↔ (¬ OneOf tool action_tools)
unfolding is_action_tool
reads_iff tool = (
  λ h f. false≢true (sym h ∙ OneOf-contains action_tools tool f),
  λ h. false_of_not_true _ (λ e. h (contains-OneOf action_tools tool e)),
)

abbrev Ready : ToolServer → ToolState → String → Type 0
Ready u s item =
    (item ≢ "") × (is_some (lookup item s.decisions) ≡ true) × (s.actions_spent <ℤ u.action_budget)

evaluate_action_iff :
    (u : ToolServer) (s : ToolState) (item : String)
    → (passes (evaluate_action u s item) ≡ true) ↔ Ready u s item
unfolding evaluate_action passes
evaluate_action_iff u s item =
    (λ h. ground (arith, h, eq_iff item ""), λ h. ground (arith, h, eq_iff item ""))

evaluate_gate_tests :
    (u : ToolServer) (s : ToolState) (tool item : String)
    → (passes (evaluate_gate u s tool item) ≡ true) ↔ (
        (u.kill_switch_engaged ≡ false)
        × (is_known_tool tool ≡ true)
        × ((item ≡ "") ⊎ (is_some (lookup item s.allowed) ≡ true))
        × ((is_action_tool tool ≡ false) ⊎ (passes (evaluate_action u s item) ≡ true)))
unfolding evaluate_gate passes
evaluate_gate_tests u s tool item =
    (λ h. ground (arith, h, eq_iff item ""), λ h. ground (arith, h, eq_iff item ""))

evaluate_gate_iff :
    (u : ToolServer) (s : ToolState) (tool item : String)
    → (passes (evaluate_gate u s tool item) ≡ true) ↔ Permitted u s tool item
evaluate_gate_iff u s tool item =
    let (there, back) = evaluate_gate_tests u s tool item in
    (
      λ h.
          let (kill, known, named, rest) = there h in
          (
            kill,
            (known_iff tool).0 known,
            named,
            elim rest [
              | inl reads ↦ inl ((reads_iff tool).0 reads)
              | inr acts ↦ inr ((evaluate_action_iff u s item).0 acts)
            ],
          ),
      λ (kill, known, named, rest). back (
        kill,
        (known_iff tool).1 known,
        named,
        elim rest [
          | inl reads ↦ inl ((reads_iff tool).1 reads)
          | inr acts ↦ inr ((evaluate_action_iff u s item).1 acts)
        ],
      ),
    )

-- What the handlers read of the server stands.
abbrev pub Stands : ToolState → ToolState → Type 0
Stands s s' =
    (s'.allowed ≡ s.allowed)
    × (s'.order ≡ s.order)
    × (s'.decisions ≡ s.decisions)
    × (s'.actions_spent ≡ s.actions_spent)

-- And one row about the call went down.
abbrev pub Logged : ToolState → ToolState → Type 0
Logged s s' =
    Stands s s'
    × ((row : Row) × (s'.recorder.rows ≡ s.recorder.rows ++ row ∷ []) × (row.kind ≡ kind_tool_call))

abbrev pub IsContained :
    {A : Type 0}
    → ToolServer
    → (ToolState → ToolState × A)
    → ToolState
    → String
    → String
    → ToolState × Gated A
    → Type 0
IsContained u next s tool item (s', ran answer) =
    Permitted u s tool item × ((noted : ToolState) × Logged s noted × (next noted ≡ (s', answer)))
IsContained u next s tool item (s', refused d) = (¬ Permitted u s tool item) × Logged s s'
IsContained u next s tool item (s', no_such_tool d) = (¬ Permitted u s tool item) × Logged s s'
IsContained u next s tool item (s', row_failed e) = Stands s s'

count_tool_call-Stands :
    (s : ToolState) (item : String) (d : GateDecision)
    → Stands s (count_tool_call s item d) × ((count_tool_call s item d).recorder ≡ s.recorder)
unfolding count_tool_call
count_tool_call-Stands s item d = ground arith

-- With its row down, a call is dispatched as the verdict says.
dispatched-IsContained :
    {A : Type 0} (u : ToolServer) (next : ToolState → ToolState × A) (s noted : ToolState)
    → (tool item : String) → Logged s noted
    → IsContained u next s tool item (dispatch_tool next noted (evaluate_gate u s tool item))
unfolding dispatch_tool
dispatched-IsContained u next s noted tool item logged =
    let d = evaluate_gate u s tool item in
    let (there, back) = evaluate_gate_iff u s tool item in
    elim (Bool-cases (passes d)) [
      | inl e ↦ rw (e, dispatch_tool) (there e, (noted, logged, refl))
      | inr e ↦ elim (Bool-cases (d.rule == rule_tool_allowlist)) [
        | inl r ↦ rw (e, r, dispatch_tool) (λ p. false≢true (sym e ∙ back p), logged)
        | inr r ↦ rw (e, r, dispatch_tool) (λ p. false≢true (sym e ∙ back p), logged)
      ]
    ]

-- A call of a tool reaches the handler exactly when the kill switch is off, the tool is one of those
-- that the server serves, an item that it names is one of the batch, and, for a tool that acts, it
-- names one, a decision about it is on record, and the budget is not spent; or else the row of the
-- call is what failed. The handler runs once, in a state with the row of the call down, one more row
-- than there was; a call that is refused leaves one row and what the handlers read as it was, and a
-- row that fails leaves it too.
pub gate-IsContained :
    {A : Type 0} (u : ToolServer) (next : ToolState → ToolState × A) (s : ToolState)
    → (now : Instant) (span : Option (String × String)) (tool item : String)
    → IsContained u next s tool item (gate u next s now span tool item)
unfolding gate tool_call_event
gate-IsContained u next s now span tool item =
    let d = evaluate_gate u s tool item in
    let counted = count_tool_call s item d in
    let (stands, same) = count_tool_call-Stands s item d in
    let ev = tool_call_event u counted tool item d in
    elim (record_event-Written u.services counted.recorder now span ev) [
      | inl (row, rows, _, kind, ok) ↦
          rw (ok, gate)
            (dispatched-IsContained u next s _ tool item
              (stands, (row, rows ∙ ap (λ r. r.rows ++ row ∷ []) same, kind)))
      | inr (cause, _, failed) ↦ rw (failed, gate) stands
    ]
