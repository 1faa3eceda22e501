-- ===== src/Policy/Order.antt =====
-- The gate decides by the first rule, in the order of RuleIDs, whose condition holds.
use rzp_rebound.Prelude.{
  ◌≡◌, refl, ap, ◌∙◌, inl, inr, Option, none, some, List, [], ◌∷◌, eq_iff, arith,
}
use rzp_rebound.Action
use rzp_rebound.Time.{Instant}
use rzp_rebound.Classify.{unclassified, never_retry}
use rzp_rebound.Classify.Agreement.{eq_class→eq, eq_class_refl}
use rzp_rebound.Policy.{
  Platform, Config, State, Request, Scene, Ruling, Rule, is_safe_action, rule_ids, ◌orelse◌,
  allow_ruling, first_ruling, scene, evaluate,
}
use rzp_rebound.Policy.Rules
use rzp_rebound.Policy.Kinds.{
  is_contact_action-OneOf, is_notify_action-OneOf, is_safe_action-OneOf, is_lawful_action-OneOf,
  is_terminal_source_status-OneOf, known_source-OneOf,
}
use rzp_rebound.Policy.Fires.{Fires, verdict_of, is_replay, FirstToFire}

-- A rule's answer agrees with its condition.
abbrev Faithful : Rule → Scene → Option Ruling → Type 0
Faithful k s none = ¬ Fires k s
Faithful k s (some x) =
    Fires k s × (k ≡ x.rule) × (x.verdict ≡ verdict_of k) × (x.replay ≡ is_replay k)

record Answers (k : Rule) (s : Scene) (o : Option Ruling) : Type 0 where
  at : Faithful k s o

module _ (s : Scene) (safe : s.safe ≡ is_safe_action s.req.action) where
  kill_switch-Faithful : Answers Rule.kill_switch s (Rules.kill_switch s)
  unfolding Rules.kill_switch
  kill_switch-Faithful = record { at = ground arith }

  idempotency-Faithful : Answers Rule.idempotency s (Rules.idempotency s)
  unfolding Rules.idempotency
  idempotency-Faithful = record { at = ground arith }

  unknown_fail_closed-Faithful : Answers Rule.unknown_fail_closed s (Rules.unknown_fail_closed s)
  unfolding Rules.unknown_fail_closed
  unknown_fail_closed-Faithful = record {
    at = ground (
      arith,
      known_source-OneOf s.req.source,
      is_lawful_action-OneOf s.req.action,
      eq_class→eq s.req.class unclassified,
      eq_class_refl unclassified,
    );
  }

  not_yet_due-Faithful : Answers Rule.not_yet_due s (Rules.not_yet_due s)
  unfolding Rules.not_yet_due
  not_yet_due-Faithful = record { at = ground (arith, is_safe_action-OneOf s.req.action) }

  no_contact_channel-Faithful : Answers Rule.no_contact_channel s (Rules.no_contact_channel s)
  unfolding Rules.no_contact_channel
  no_contact_channel-Faithful = record {
    at = ground (
      arith,
      is_contact_action-OneOf s.req.action,
      eq_iff s.req.action Action.notify_email,
      eq_iff s.req.action Action.notify_sms,
    );
  }

  never_contact-Faithful : Answers Rule.never_contact s (Rules.never_contact s)
  unfolding Rules.never_contact
  never_contact-Faithful = record {
    at = ground (
      arith,
      is_contact_action-OneOf s.req.action,
      is_terminal_source_status-OneOf s.req.source_status,
      eq_class→eq s.req.class never_retry,
      eq_class_refl never_retry,
    );
  }

  promise_hold-Faithful : Answers Rule.promise_hold s (Rules.promise_hold s)
  unfolding Rules.promise_hold
  promise_hold-Faithful = record { at = ground (arith, is_safe_action-OneOf s.req.action) }

  quiet_hours-Faithful : Answers Rule.quiet_hours s (Rules.quiet_hours s)
  unfolding Rules.quiet_hours
  quiet_hours-Faithful = record { at = ground (arith, is_notify_action-OneOf s.req.action) }

  disputed-Faithful : Answers Rule.disputed s (Rules.disputed s)
  unfolding Rules.disputed
  disputed-Faithful = record { at = ground (arith, is_safe_action-OneOf s.req.action) }

  human_approval-Faithful : Answers Rule.human_approval s (Rules.human_approval s)
  unfolding Rules.human_approval
  human_approval-Faithful = record {
    at =
        ground
          (arith, is_safe_action-OneOf s.req.action, eq_iff s.req.action Action.cancel_write_off);
  }

  max_touches-Faithful : Answers Rule.max_touches s (Rules.max_touches s)
  unfolding Rules.max_touches
  max_touches-Faithful = record { at = ground (arith, is_contact_action-OneOf s.req.action) }

  cooldown-Faithful : Answers Rule.cooldown s (Rules.cooldown s)
  unfolding Rules.cooldown
  cooldown-Faithful = record { at = ground (arith, is_contact_action-OneOf s.req.action) }

  notify_rate-Faithful : Answers Rule.notify_rate s (Rules.notify_rate s)
  unfolding Rules.notify_rate
  notify_rate-Faithful = record { at = ground (arith, is_notify_action-OneOf s.req.action) }

  action_budget-Faithful : Answers Rule.action_budget s (Rules.action_budget s)
  unfolding Rules.action_budget
  action_budget-Faithful = record { at = ground (arith, is_safe_action-OneOf s.req.action) }

-- The ruling is that of the first rule of the list that fires.
record Decided (s : Scene) (qs : List Rule) (x : Ruling) : Type 0 where
  first : FirstToFire s qs x.rule
  verdict : x.verdict ≡ verdict_of x.rule
  replay : x.replay ≡ is_replay x.rule

allow-Decided : (s : Scene) → Decided s (Rule.default_allow ∷ []) allow_ruling
allow-Decided s = record { first = inl (tt, refl); verdict = refl; replay = refl }

-- A rule that answers decides; one that does not leaves the decision to the rules after it.
orelse-Decided :
    {s : Scene} {k : Rule} {o : Option Ruling} {rest : Ruling} {qs : List Rule}
    → Answers k s o
    → Decided s qs rest
    → Decided s (k ∷ qs) (o orelse rest)
unfolding ◌orelse◌
orelse-Decided {o = none} f h = record {
  first = inr (f.at, h.first);
  verdict = h.verdict;
  replay = h.replay;
}
orelse-Decided {o = some x} f h = record {
  first = inl (f.at.0, f.at.1);
  verdict = f.at.2 ∙ ap verdict_of f.at.1;
  replay = f.at.3 ∙ ap is_replay f.at.1;
}

first_ruling-Decided :
    (s : Scene) → s.safe ≡ is_safe_action s.req.action → Decided s rule_ids (first_ruling s)
unfolding rule_ids first_ruling
first_ruling-Decided s safe = orelse-Decided (kill_switch-Faithful s safe) (
    orelse-Decided (idempotency-Faithful s safe) (
      orelse-Decided (unknown_fail_closed-Faithful s safe) (
        orelse-Decided (not_yet_due-Faithful s safe) (
          orelse-Decided (no_contact_channel-Faithful s safe) (
            orelse-Decided (never_contact-Faithful s safe) (
              orelse-Decided (promise_hold-Faithful s safe) (
                orelse-Decided (quiet_hours-Faithful s safe) (
                  orelse-Decided (disputed-Faithful s safe) (
                    orelse-Decided (human_approval-Faithful s safe) (
                      orelse-Decided (max_touches-Faithful s safe) (
                        orelse-Decided (cooldown-Faithful s safe) (
                          orelse-Decided (notify_rate-Faithful s safe) (
                            orelse-Decided (action_budget-Faithful s safe)
                              (allow-Decided s))))))))))))))

-- For every platform, setting, instant, state and request: the rule id of the decision is that of
-- the first rule, in the order of RuleIDs, whose condition holds; the verdict is that rule's, and
-- the decision is marked as a replay for the idempotency rule alone.
pub evaluate-FirstToFire :
    (platform : Platform) (cfg : Config) (now : Instant) (state : State) (req : Request)
    → let d = evaluate platform cfg now state req in
      FirstToFire (scene platform cfg now state req) rule_ids d.rule_id
      × (d.verdict ≡ verdict_of d.rule_id)
      × (d.idempotent_replay ≡ is_replay d.rule_id)
unfolding evaluate
evaluate-FirstToFire platform cfg now state req =
    let d = first_ruling-Decided (scene platform cfg now state req) (unfold scene in refl) in
    (d.first, d.verdict, d.replay)
