-- ===== src/Recovery/Arms/Gated.antt =====
-- What the gate leaves to the rules arm of internal/recovery/arms.go, which names no source.
use rzp_rebound.Prelude.{
  ◌≡◌, ◌⊎◌, ◌↔◌, inl, inr, refl, sym, Bool, true, false, Option, none, some, ℤ, arith, false≢true,
}
use rzp_rebound.Time.{Instant}
use rzp_rebound.Classify.{Class}
use rzp_rebound.Policy.{
  Platform, Config, Decision, Request, Scene, Rule, Verdict, allowed, evaluate, scene, rule_ids,
  normalize_request, verdict_text, rule_text, known_source,
}
use rzp_rebound.Policy.Kinds.{known_source-OneOf}
use rzp_rebound.Policy
use rzp_rebound.Policy.Fires.{Fires, FirstToFire, verdict_of}
use rzp_rebound.Policy.Order.{evaluate-FirstToFire}
use rzp_rebound.OrderStore.{attempts, increment}
use rzp_rebound.Audit.{Event, RecordError}
use rzp_rebound.Recovery.{
  AgentVisibleOrder, ActionResult, Surface, State, action_none, action_for_class, record_row,
}
use rzp_rebound.Recovery.Arms.{with_detail}
use rzp_rebound.Recovery.Arms.Rules.{decision_on, request_for, rules, refused, decided, evaluated}

-- The rule of a refusal that comes before any rule about the order.
abbrev pub IsEarly : Rule → Type 0
IsEarly r = (r ≡ Rule.kill_switch) ⊎ (r ≡ Rule.idempotency) ⊎ (r ≡ Rule.unknown_fail_closed)

first-IsEarly :
    (s : Scene) (r : Rule) → Fires Rule.unknown_fail_closed s → FirstToFire s rule_ids r → IsEarly r
unfolding rule_ids
first-IsEarly s r fires (inl (_, e)) = inl (sym e)
first-IsEarly s r fires (inr (_, inl (_, e))) = inr (inl (sym e))
first-IsEarly s r fires (inr (_, inr (_, inl (_, e)))) = inr (inr (sym e))
first-IsEarly s r fires (inr (_, inr (_, inr (quiet, _)))) = absurd (quiet fires)

-- A request that names no source.
evaluate-IsEarly :
    (platform : Platform) (cfg : Config) (now : Instant) (state : Policy.State) (req : Request)
    → req.source ≡ ""
    → let d = evaluate platform cfg now state req in
      IsEarly d.rule_id × (d.verdict ≡ verdict_of d.rule_id)
unfolding scene normalize_request known_source
evaluate-IsEarly platform cfg now state req unnamed =
    let (first, verdict, _) = evaluate-FirstToFire platform cfg now state req in
    (
      first-IsEarly _ _ (inl λ h. false≢true ((known_source-OneOf "").1 (rw unnamed at h))) first,
      verdict,
    )

module _ {W : Type 0} (u : Surface W) (gate : Platform × Config) (kill : Bool) (s : State W)
    (order : AgentVisibleOrder) (class : Class) where
  abbrev d : Decision
  d = decision_on u gate kill s order class

  decision_on-IsEarly : IsEarly d.rule_id × (d.verdict ≡ verdict_of d.rule_id)
  unfolding decision_on request_for
  decision_on-IsEarly = evaluate-IsEarly gate.0 gate.1 _ _ _ refl

  -- The arm did nothing: the world and the ledger stand, and the result says so.
  abbrev pub DidNothing : State W → ActionResult → Type 0
  DidNothing s' r =
      (s'.world ≡ s.world)
      × (s'.store ≡ s.store)
      × (r.side_effect ≡ false)
      × (r.claimed_recovered ≡ false)
      × (r.policy_rule ≡ rule_text d.rule_id)

  record_row_keeps :
      (ev : Event)
      → ((record_row u s ev).0.world ≡ s.world) × ((record_row u s ev).0.store ≡ s.store)
  unfolding record_row
  record_row_keeps ev = (refl, refl)

  not_allowed : allowed d ≡ false
  unfolding allowed
  not_allowed = let (early, same) = decision_on-IsEarly in ground (arith, early, same)

  escalated_iff :
      (r : ActionResult)
      → ((refused u r (action_for_class class) d).escalated ≡ true)
        ↔ (d.rule_id ≡ Rule.unknown_fail_closed)
  unfolding refused with_detail
  escalated_iff r =
      let (early, same) = decision_on-IsEarly in
      (λ h. ground (arith, early, same, h), λ h. ground (arith, same, h))

-- The arm that asks the gate never reaches the gateway, since its requests name no source and the
-- gate refuses such before any rule about the order: the world and the ledger of attempts stand,
-- nothing is claimed, and the rule of the result is that of the kill switch, of a replay or of an
-- unknown source. Once the row of the evaluation is down, no action is taken, and the order is
-- handed to a person exactly when the source is what was refused.
pub rules-DidNothing :
    {W : Type 0} (u : Surface W) (gate : Platform × Config) (kill : Bool) (s : State W)
    (order : AgentVisibleOrder) (class : Class)
    → let d = decision_on u gate kill s order class in
      let (s', acted) = rules u gate kill s order class in
      DidNothing u gate kill s order class s' acted.0
      × IsEarly d.rule_id
      × (acted.1 ≡ none
          → (acted.0.kind ≡ action_none)
            × ((acted.0.escalated ≡ true) ↔ (d.rule_id ≡ Rule.unknown_fail_closed)))
unfolding rules
rules-DidNothing {W = W} u gate kill s order class = go (record_row u s row).1 refl
  where
    d : Decision
    d = decision_on u gate kill s order class

    attempt_no : ℤ
    attempt_no = increment (attempts s.store order.order_id)

    row : Event
    row = evaluated u order class (action_for_class class) d attempt_no

    go :
        (written : Option RecordError)
        → (record_row u s row).1 ≡ written
        → let (s', acted) = rules u gate kill s order class in
          DidNothing u gate kill s order class s' acted.0
          × IsEarly d.rule_id
          × (acted.1 ≡ none
              → (acted.0.kind ≡ action_none)
                × ((acted.0.escalated ≡ true) ↔ (d.rule_id ≡ Rule.unknown_fail_closed)))
    go (some e) same =
        let (world, store) = record_row_keeps u gate kill s order class row in
        rw (same, rules)
          (
            unfold decided in (world, store, refl, refl, refl),
            (decision_on-IsEarly u gate kill s order class).0,
            λ h. cc,
          )
    go none same =
        let (world, store) = record_row_keeps u gate kill s order class row in
        rw (same, not_allowed u gate kill s order class, rules)
          (
            unfold refused with_detail decided in (world, store, refl, refl, refl),
            (decision_on-IsEarly u gate kill s order class).0,
            λ h. (
              unfold refused with_detail in refl,
              escalated_iff u gate kill s order class
                  (decided u (action_for_class class) d attempt_no),
            ),
          )
