-- ===== src/Policy/Allowed.antt =====
-- When the gate allows an action; what follows for the customer is in Contact.
use rzp_rebound.Prelude.{
  String, OneOf-disjoint, ◌≡◌, ◌≢◌, refl, sym, ap, ◌∙◌, ◌↔◌, inl, inr, true, List, [], ◌∷◌, ◌++◌,
  All, OneOf, arith,
}
use rzp_rebound.Action
use rzp_rebound.Time.{Instant}
use rzp_rebound.Classify.{unclassified}
use rzp_rebound.Policy.{
  Platform, Config, State, Request, Scene, Rule, allow, rule_ids, scene, evaluate,
  normalize_request, lawful_actions,
}
use rzp_rebound.Policy.Fires.{
  Fires, verdict_of, FirstToFire, contact_actions, notify_actions, safe_actions,
}
use rzp_rebound.Policy.Order.{evaluate-FirstToFire}

-- The rules that can refuse, in the order of RuleIDs.
abbrev pub refusing_rules : List Rule
refusing_rules =
    Rule.kill_switch ∷ Rule.idempotency ∷ Rule.unknown_fail_closed ∷ Rule.not_yet_due
    ∷ Rule.no_contact_channel ∷ Rule.never_contact ∷ Rule.promise_hold ∷ Rule.quiet_hours
    ∷ Rule.disputed ∷ Rule.human_approval ∷ Rule.max_touches ∷ Rule.cooldown ∷ Rule.notify_rate
    ∷ Rule.action_budget ∷ []

abbrev pub NoneFires : Scene → Type 0
NoneFires s = All (λ q. ¬ Fires q s) refusing_rules

passed :
    (s : Scene) (qs : List Rule) (r : Rule)
    → All (λ q. verdict_of q ≢ allow) qs
    → FirstToFire s (qs ++ Rule.default_allow ∷ []) r
    → verdict_of r ≡ allow
    → All (λ q. ¬ Fires q s) qs
passed s [] r known f v = tt
passed s (q ∷ qs) r known (inl (fires, same)) v = absurd (known.0 (ap verdict_of same ∙ v))
passed s (q ∷ qs) r known (inr (quiet, later)) v = (quiet, passed s qs r known.1 later v)

none_left :
    (s : Scene) (qs : List Rule) (r : Rule)
    → All (λ q. ¬ Fires q s) qs
    → FirstToFire s (qs ++ Rule.default_allow ∷ []) r
    → r ≡ Rule.default_allow
none_left s [] r n (inl (fires, same)) = sym same
none_left s [] r n (inr (quiet, later)) = absurd later
none_left s (q ∷ qs) r n (inl (fires, same)) = absurd (n.0 fires)
none_left s (q ∷ qs) r n (inr (quiet, later)) = none_left s qs r n.1 later

refusing_refuse : All (λ q. verdict_of q ≢ allow) refusing_rules
refusing_refuse = ground arith

-- The gate allows an action exactly when the condition of none of the fourteen refusing rules
-- holds.
pub evaluate_allow_iff :
    (platform : Platform) (cfg : Config) (now : Instant) (state : State) (req : Request)
    → ((evaluate platform cfg now state req).verdict ≡ allow)
      ↔ NoneFires (scene platform cfg now state req)
unfolding rule_ids
evaluate_allow_iff platform cfg now state req =
    let s = scene platform cfg now state req in
    let d = evaluate platform cfg now state req in
    let (first, same, _) = evaluate-FirstToFire platform cfg now state req in
    (
      λ v. passed s refusing_rules d.rule_id refusing_refuse first (sym same ∙ v),
      λ n. same ∙ ap verdict_of (none_left s refusing_rules d.rule_id n first),
    )

pub contact_unsafe : (a : String) → OneOf a contact_actions → ¬ OneOf a safe_actions
contact_unsafe a = OneOf-disjoint contact_actions safe_actions a refl

notify_unsafe : (a : String) → OneOf a notify_actions → ¬ OneOf a safe_actions
notify_unsafe a = OneOf-disjoint notify_actions safe_actions a refl

write_off_unsafe : (a : String) → a ≡ Action.cancel_write_off → ¬ OneOf a safe_actions
write_off_unsafe a e = OneOf-disjoint (Action.cancel_write_off ∷ []) safe_actions a refl (inl e)

NoneFires-of_safe :
    (s : Scene)
    → OneOf s.req.action safe_actions
    → ¬ Fires Rule.kill_switch s
    → ¬ Fires Rule.idempotency s
    → ¬ Fires Rule.unknown_fail_closed s
    → NoneFires s
NoneFires-of_safe s safe halt replay unknown =
    let contact = λ (c : OneOf s.req.action contact_actions). contact_unsafe s.req.action c safe in
    let notify = λ (c : OneOf s.req.action notify_actions). notify_unsafe s.req.action c safe in
    (
      halt,
      (
        replay,
        (
          unknown,
          (
            λ f. f.0 safe,
            (
              λ f. contact f.0,
              (
                λ f. contact f.0,
                (
                  λ f. f.0 safe,
                  (
                    λ f. notify f.0,
                    (
                      λ f. f.0 safe,
                      (
                        human,
                        (
                          λ f. contact f.0,
                          (λ f. contact f.0, (λ f. notify f.0, (λ f. f.0 safe, tt))),
                        ),
                      ),
                    ),
                  ),
                ),
              ),
            ),
          ),
        ),
      ),
    )
  where
    human : ¬ Fires Rule.human_approval s
    human (inl (write_off, above)) = write_off_unsafe s.req.action write_off safe
    human (inr (unsafe, above)) = unsafe safe

-- Escalating, doing nothing and logging a promise are allowed exactly when no halt is on, the
-- action was not committed before, and the item is one that the gate has rules for: its source is
-- known, a failed payment shows its failure, and a failure has a class.
pub safe_allowed_iff :
    (platform : Platform) (cfg : Config) (now : Instant) (state : State) (req : Request)
    → OneOf req.action safe_actions
    → ((evaluate platform cfg now state req).verdict ≡ allow) ↔ (
        (¬ Fires Rule.kill_switch (scene platform cfg now state req))
        × (¬ Fires Rule.idempotency (scene platform cfg now state req))
        × (¬ Fires Rule.unknown_fail_closed (scene platform cfg now state req)))
unfolding scene normalize_request
safe_allowed_iff platform cfg now state req safe =
    let (allows, none_fires) = evaluate_allow_iff platform cfg now state req in
    (
      λ v. let (halt, (replay, (unknown, _))) = allows v in (halt, replay, unknown),
      λ h. none_fires (NoneFires-of_safe (scene platform cfg now state req) safe h.0 h.1 h.2),
    )

-- An action outside the closed set, such as any spelling of a retry, is never allowed.
pub unlawful_never_allowed :
    (platform : Platform) (cfg : Config) (now : Instant) (state : State) (req : Request)
    → ¬ OneOf req.action lawful_actions
    → (evaluate platform cfg now state req).verdict ≢ allow
unfolding scene normalize_request
unlawful_never_allowed platform cfg now state req h v =
    let (_, (_, (unknown, _))) = (evaluate_allow_iff platform cfg now state req).0 v in
    unknown (inr (inl h))

-- An item whose failure no table recognises gets no allowed action at all: not even handing it to
-- a person, since the rule that escalates it refuses the escalation too.
pub unreadable_never_allowed :
    (platform : Platform) (cfg : Config) (now : Instant) (state : State) (req : Request)
    → req.signal_present ≡ true
    → req.class ≡ unclassified
    → (evaluate platform cfg now state req).verdict ≢ allow
unfolding scene normalize_request
unreadable_never_allowed platform cfg now state req present class v =
    let (_, (_, (unknown, _))) = (evaluate_allow_iff platform cfg now state req).0 v in
    unknown (inr (inr (inr (present, class))))
