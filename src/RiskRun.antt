-- ===== src/RiskRun.antt =====
-- internal/riskrun/riskrun.go: what one run proposes for an item, how the gate's decision becomes
-- an action, and what the action leaves in the run's ledger. The rows, the audit trail and the
-- summary only report, and are left out; what the intervention engine answers is an argument.
mod Counters
pub mod Manifest
pub mod Promises
pub mod Cap
pub mod Replay
pub mod Live
pub mod Adapter
mod Examples
pub use Counters.{Ledger}
unfoldable pub use Counters.{
  new_ledger, touches_of, key_seen, increment, touch_no, state, commit_accepted, commit,
}
pub mod Snapshot
use rzp_rebound.Prelude.{
  String, Bool, true, false, not, ◌||◌, ◌&&◌, ◌==◌, Option, none, some, List, [], ◌∷◌,
  if◌then◌else◌, ℤ,
}
use rzp_rebound.Action
use rzp_rebound.Time.{Instant}
use rzp_rebound.Classify.{Class, unclassified, classify, Failure}
use rzp_rebound.RiskItem.{RiskItem, handle_kind_none}
use rzp_rebound.Policy.{Platform, Config, Decision, Verdict, allowed, evaluate, idempotency_key}
use rzp_rebound.Policy.Adapter.{Facts, has_signal, request_from_classified}

abbrev pub arm_control : String
arm_control = "a0-control"

unfoldable pub propose_action : RiskItem → String
propose_action item =
    if item.pay_handle.kind == handle_kind_none
    then Action.create_payment_link
    else if not (item.customer.email == "")
    then Action.notify_email
    else Action.notify_sms

unfoldable pub class_for : RiskItem → Class
class_for item =
    if not (has_signal item.signal)
    then unclassified
    else classify (record {
      code = item.signal.failure_code;
      reason = item.signal.failure_reason;
      source = item.signal.failure_source;
      step = item.signal.failure_step;
      method = item.signal.method;
    })

-- What processItem reads of a run: the gate, its settings with their defaults filled in, and R8's
-- file half. `facts` holds the touch number that the ledger gave.
pub record Gate : Type 0 where
  pub platform : Platform
  pub cfg : Config
  pub kill_switch : Bool

-- r.policy.Evaluate of an action on an item, over the ledger's state for it.
unfoldable pub ask : Gate → Ledger → Instant → RiskItem → Facts → String → Decision
ask g l now item facts action =
    evaluate g.platform g.cfg now
      (state l item.id (idempotency_key g.platform.sha256_hex item.id action facts.touch_no)
        g.kill_switch)
      (request_from_classified item action (class_for item) facts)

-- Whether the audit trail takes the row of each stage; processItem ends where it does not.
pub record Trail : Type 0 where
  pub classified : Bool
  pub evaluated : Bool
  pub escalated : Bool

-- The instants that the gate's clock reads at the two evaluations of one pass.
pub record Instants : Type 0 where
  pub decided : Instant
  pub escalated : Instant

-- The action that processItem comes to, with its idempotency key; `none` is the empty action, or
-- an end before that.
unfoldable pub choose :
    Gate → Ledger → Instants → RiskItem → Facts → Trail → Option (String × String)
choose g l clock item facts trail =
    let proposed = propose_action item in
    let decision = ask g l clock.decided item facts proposed in
    let escalation = ask g l clock.escalated item facts Action.escalate in
    if has_signal item.signal && not trail.classified
    then none
    else if not trail.evaluated
    then none
    else elim decision.verdict [
      | Verdict.allow ↦ some (proposed, decision.idempotency_key)
      | Verdict.deny ↦ none
      | Verdict.escalate ↦
          if trail.escalated && allowed escalation
          then some (Action.escalate, escalation.idempotency_key)
          else none
    ]

-- The rest of what one pass depends on: the arm of the item, whether the run is a dry one, whether
-- the engine accepted the action, and the instant of the commit.
pub record Pass : Type 0 where
  pub item : RiskItem
  pub facts : Facts
  pub clock : Instants
  pub trail : Trail
  pub arm : String
  pub dry_run : Bool
  pub accepted : Bool
  pub committed_at : Instant

-- The end of processItem, from the action that it came to on: the ledger, and whether the commit
-- was a replay.
unfoldable pub act : Ledger → Pass → Option (String × String) → Ledger × Bool
act l p none = (l, false)
act l p (some (action, key)) =
    if p.arm == arm_control || p.dry_run
    then (l, false)
    else commit l p.item.id key action p.accepted p.committed_at

-- The facts of a pass, with the touch number that the ledger gives.
abbrev pub facts_at : Ledger → Pass → Facts
facts_at l p = record p.facts { touch_no = touch_no l p.item.id }

unfoldable pub process : Gate → Ledger → Pass → Ledger × Bool
process g l p = act l p (choose g l p.clock p.item (facts_at l p) p.trail)

-- The loop of Run over the items, with the replays that its commits reported; a row
-- that cannot be written ends the run early, as a shorter list does.
unfoldable pub run : Gate → Ledger → List Pass → Ledger × List Bool
run g l [] = (l, [])
run g l (p ∷ ps) =
    let (next, replay) = process g l p in
    let (last, replays) = run g next ps in (last, replay ∷ replays)
