-- ===== src/RiskRun/Promises.antt =====
-- A run keeps to the promises that were made to the merchant.
use rzp_rebound.Prelude.{
  String, ◌≡◌, refl, sym, ap, ◌∙◌, inl, inr, ◌<◌, Option, none, some, ℤ, arith, OneOf, Bool-cases,
  OneOf-disjoint, ◌⊎◌, false≢true,
}
use rzp_rebound.Action
use rzp_rebound.Time.{Instant}
use rzp_rebound.RiskItem.{RiskItem}
use rzp_rebound.Promise
use rzp_rebound.Promise.{Record, active_at, active_hold, hold_until, records}
use rzp_rebound.Policy.{allow, scene, normalize_request, is_safe_action}
use rzp_rebound.Policy.Adapter.{Facts, request_from_classified}
use rzp_rebound.Policy.Fires.{contact_actions, safe_actions}
use rzp_rebound.Policy.Kinds.{is_safe_action-OneOf}
use rzp_rebound.Policy.Allowed.{evaluate_allow_iff}
use rzp_rebound.RiskRun.{Ledger, touch_no, Gate, ask, Trail, Instants, choose, propose_action}
use rzp_rebound.RiskRun.Manifest.{ManifestIndex, facts_for}
use rzp_rebound.RiskRun.Cap.{choose_one}

allowed_held :
    (g : Gate) (l : Ledger) (now : Instant) (item : RiskItem) (facts : Facts) (action : String)
    → (ask g l now item facts action).verdict ≡ allow
    → now < facts.promise_hold_until
    → OneOf action safe_actions
unfolding ask scene normalize_request request_from_classified
allowed_held g l now item facts action v ahead =
    let (_, (_, (_, (_, (_, (_, (promise, _))))))) = (evaluate_allow_iff _ _ _ _ _).0 v in
    elim (Bool-cases (is_safe_action action)) [
      | inl safe ↦ (is_safe_action-OneOf action).0 safe
      | inr unsafe ↦
          absurd (
            promise (λ safe. false≢true (sym unsafe ∙ (is_safe_action-OneOf action).1 safe), ahead))
    ]

propose_contact : (item : RiskItem) → OneOf (propose_action item) contact_actions
unfolding propose_action
propose_contact item = ground arith

facts_for_hold :
    (idx : ManifestIndex) (promises : Promise.Store) (item : RiskItem) (number : ℤ) (now : Instant)
    (r : Record)
    → active_hold promises item.id now ≡ some r
    → (facts_for idx promises item number now).promise_hold_until ≡ hold_until r
unfolding facts_for
facts_for_hold idx promises item number now r e = ground arith

held_escalates :
    (g : Gate) (l : Ledger) (clock : Instants) (item : RiskItem) (facts : Facts) (trail : Trail)
    (action key : String)
    → clock.decided < facts.promise_hold_until
    → choose g l clock item facts trail ≡ some (action, key)
    → action ≡ Action.escalate
held_escalates g l clock item facts trail action key ahead chosen =
    elim (choose_one g l clock item facts trail action key chosen) [
      | inl (proposed, v, _) ↦
          let safe = allowed_held g l clock.decided item facts action v ahead in
          absurd (
            OneOf-disjoint contact_actions safe_actions (propose_action item) refl
              (propose_contact item) (rw proposed at safe))
      | inr (escalated, _, _) ↦ escalated
    ]

-- While a logged promise of an item covers now, a run comes to no action about the item, or to
-- handing it to a person, whatever the gate, the ledger and the manifest. The promise is taken to
-- hold still when the gate reads its clock for the proposed action.
pub choose_held :
    (g : Gate) (l : Ledger) (now : Instant) (clock : Instants) (item : RiskItem)
    (idx : ManifestIndex) (promises : Promise.Store) (trail : Trail) (r : Record)
    → active_hold promises item.id now ≡ some r
    → clock.decided < hold_until r
    → let chosen =
        choose g l clock item (facts_for idx promises item (touch_no l item.id) now) trail in
      (chosen ≡ none) ⊎ ((key : String) × (chosen ≡ some (Action.escalate, key)))
choose_held g l now clock item idx promises trail r hold ahead =
    go (choose g l clock item facts trail) refl
  where
    facts : Facts
    facts = facts_for idx promises item (touch_no l item.id) now

    go :
        (o : Option (String × String))
        → choose g l clock item facts trail ≡ o
        → (choose g l clock item facts trail ≡ none)
          ⊎ ((key : String) × (choose g l clock item facts trail ≡ some (Action.escalate, key)))
    go none e = inl e
    go (some (action, key)) e =
        let same = facts_for_hold idx promises item (touch_no l item.id) now r hold in
        let escalates = held_escalates g l clock item facts trail action key (rw same ahead) e in
        inr (key, e ∙ ap (λ a. some (a, key)) escalates)
