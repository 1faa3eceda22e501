-- ===== src/RiskRun/Live.antt =====
-- internal/riskrun/riskrun.go with the engine of internal/intervene in place: what processItem
-- hands to Apply, and what the answer does to the ledger. The text of a decision's reason, which
-- goes to the engine as it is, is an argument.
pub mod Contacts
mod Examples
use rzp_rebound.Prelude.{
  String, Bool, true, false, ◌||◌, ◌==◌, ◌≡◌, if◌then◌else◌, Option, none, some, List, [], ◌∷◌,
}
use rzp_rebound.Time.{Instant}
use rzp_rebound.RiskItem.{RiskItem, Outcome}
use rzp_rebound.Policy.Adapter.{Facts}
use rzp_rebound.Intervene.{Setup, Engine, ApplyArgs, apply}
use rzp_rebound.RiskRun.{arm_control, Instants, Ledger, touch_no, commit, Gate, Trail, choose, Pass}

pub record Live : Type 0 where
  pub ledger : Ledger
  pub engine : Engine

-- What one pass depends on besides the state.
pub record Turn : Type 0 where
  pub item : RiskItem
  pub facts : Facts
  pub clock : Instants
  pub trail : Trail
  pub arm : String
  pub dry_run : Bool
  pub reason : String
  pub applied_at : Instant
  pub recorded_at : Instant
  pub span : Option (String × String)
  pub committed_at : Instant

-- An action that a run has put to its engine, with what the engine answered.
pub record Done : Type 0 where
  pub item_id : String
  pub action : String
  pub outcome : Outcome

-- The arguments of Apply, the key and the reason in the context.
abbrev pub args_of : Turn → String → String → ApplyArgs
args_of t action key = record {
  ctx = record { idempotency_key = key; reason = t.reason };
  item = t.item;
  action = action;
  now = t.applied_at;
  recorded = t.recorded_at;
  span = t.span;
}

-- processItem from the action that it came to on
unfoldable pub live_act : Setup → Live → Turn → Option (String × String) → Live × List Done
live_act s w t none = (w, [])
live_act s w t (some (action, key)) =
    let answered = apply s w.engine (args_of t action key) in
    let out = answered.1.outcome in
    if t.arm == arm_control || t.dry_run then (w, []) else (
      record {
        ledger = (commit w.ledger t.item.id key action out.accepted t.committed_at).0;
        engine = answered.0;
      },
      record { item_id = t.item.id; action = action; outcome = out } ∷ [],
    )

abbrev pub live_facts : Ledger → Turn → Facts
live_facts l t = record t.facts { touch_no = touch_no l t.item.id }

unfoldable pub live_process : Gate → Setup → Live → Turn → Live × List Done
live_process g s w t =
    live_act s w t (choose g w.ledger t.clock t.item (live_facts w.ledger t) t.trail)

-- The loop of Run over the items, with what the engine was asked; an engine's error does not end
-- it.
unfoldable pub live_run : Gate → Setup → Live → List Turn → Live × List (List Done)
live_run g s w [] = (w, [])
live_run g s w (t ∷ ts) =
    let (next, done) = live_process g s w t in
    let (last, dones) = live_run g s next ts in (last, done ∷ dones)

-- The pass of a turn, once the engine's answer is known.
abbrev pub pass_of : Turn → Bool → Pass
pass_of t accepted = record {
  item = t.item;
  facts = t.facts;
  clock = t.clock;
  trail = t.trail;
  arm = t.arm;
  dry_run = t.dry_run;
  accepted = accepted;
  committed_at = t.committed_at;
}

-- Whether the engine accepted what a turn put to it, false for a turn that put nothing to it.
abbrev pub accepted_of : List Done → Bool
accepted_of [] = false
accepted_of (d ∷ ds) = d.outcome.accepted

-- The passes of the turns, with these answers.
abbrev pub passes_of : List Turn → List (List Done) → List Pass
passes_of [] dss = []
passes_of (t ∷ ts) [] = []
passes_of (t ∷ ts) (ds ∷ dss) = pass_of t (accepted_of ds) ∷ passes_of ts dss

-- What a turn put to the engine: nothing, or one action on its item, with the outcome that Apply
-- has for it.
abbrev pub Asks : Setup → Engine → Turn → List Done → Engine → Type 0
Asks s e t [] e' = e' ≡ e
Asks s e t (d ∷ []) e' =
    (key : String) × (d.item_id ≡ t.item.id)
    × (d.outcome ≡ (apply s e (args_of t d.action key)).1.outcome)
    × (e' ≡ (apply s e (args_of t d.action key)).0)
Asks s e t (d ∷ d' ∷ ds) e' = ⊥

-- The turns asked the engine one after the other, from its first state to its last.
abbrev pub Answered : Setup → Engine → List Turn → List (List Done) → Engine → Type 0
Answered s e [] [] e' = e' ≡ e
Answered s e [] (ds ∷ dss) e' = ⊥
Answered s e (t ∷ ts) [] e' = ⊥
Answered s e (t ∷ ts) (ds ∷ dss) e' = (mid : Engine) × Asks s e t ds mid × Answered s mid ts dss e'
