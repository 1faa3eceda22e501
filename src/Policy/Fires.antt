-- ===== src/Policy/Fires.antt =====
-- When each rule of the gate applies, said without the code: the conditions that the comment over
-- Evaluate and the rule ids of internal/policy/policy.go name.
use rzp_rebound.Prelude.{
  String, ◌≡◌, ◌≢◌, ◌⊎◌, ◌<◌, Bool, true, false, List, [], ◌∷◌, pos, ◌≤ℤ◌, ◌<ℤ◌, OneOf,
}
use rzp_rebound.Action
use rzp_rebound.Time.{zero_time, sub_time}
use rzp_rebound.Quiet
use rzp_rebound.Classify.{unclassified, never_retry}
use rzp_rebound.Policy.{Scene, Rule, Verdict, sources, lawful_actions, terminal_source_statuses}

abbrev pub contact_actions : List String
contact_actions =
    Action.notify_email ∷ Action.notify_sms ∷ Action.create_payment_link ∷ Action.resend_link ∷ []

abbrev pub notify_actions : List String
notify_actions = Action.notify_email ∷ Action.notify_sms ∷ Action.resend_link ∷ []

-- Always still available: escalating, doing nothing, recording a promise.
abbrev pub safe_actions : List String
safe_actions = Action.escalate ∷ Action.do_nothing ∷ Action.log_promise ∷ []

abbrev pub Fires : Rule → Scene → Type 0
Fires Rule.kill_switch s = (s.cfg.kill_switch ≡ true) ⊎ (s.state.kill_switch_engaged ≡ true)
Fires Rule.idempotency s = s.state.idempotency_key_seen ≡ true
Fires Rule.unknown_fail_closed s =
    (¬ OneOf s.req.source sources)
    ⊎ (¬ OneOf s.req.action lawful_actions)
    ⊎ ((s.params.requires_signal ≡ true) × (s.req.signal_present ≡ false))
    ⊎ ((s.req.signal_present ≡ true) × (s.req.class ≡ unclassified))
Fires Rule.not_yet_due s =
    (¬ OneOf s.req.action safe_actions)
    × (pos 0 <ℤ s.params.grace)
    × ((s.req.at_risk_since ≡ zero_time) ⊎ (sub_time s.now s.req.at_risk_since <ℤ s.params.grace))
Fires Rule.no_contact_channel s =
    OneOf s.req.action contact_actions
    × (((s.req.has_email ≡ false) × (s.req.has_contact ≡ false))
        ⊎ ((s.req.action ≡ Action.notify_email) × (s.req.has_email ≡ false))
        ⊎ ((s.req.action ≡ Action.notify_sms) × (s.req.has_contact ≡ false)))
Fires Rule.never_contact s =
    OneOf s.req.action contact_actions
    × ((s.req.class ≡ never_retry)
        ⊎ OneOf s.req.source_status terminal_source_statuses
        ⊎ (s.req.amount_due_paise ≤ℤ pos 0))
Fires Rule.promise_hold s = (¬ OneOf s.req.action safe_actions) × (s.now < s.req.promise_hold_until)
Fires Rule.quiet_hours s =
    OneOf s.req.action notify_actions
    × (Quiet.contains s.kolkata s.cfg.contact_window s.now s.cfg.contact_location ≡ false)
Fires Rule.disputed s = (¬ OneOf s.req.action safe_actions) × (s.req.disputed ≡ true)
Fires Rule.human_approval s =
    ((s.req.action ≡ Action.cancel_write_off)
      × (s.cfg.write_off_floor_paise <ℤ s.req.amount_due_paise))
    ⊎ ((¬ OneOf s.req.action safe_actions) × (s.cfg.amount_ceiling_paise <ℤ s.req.amount_due_paise))
Fires Rule.max_touches s =
    OneOf s.req.action contact_actions × (s.params.max_touches ≤ℤ s.state.touches_made)
Fires Rule.cooldown s =
    OneOf s.req.action contact_actions
    × (s.state.last_touch_at ≢ zero_time)
    × (sub_time s.now s.state.last_touch_at <ℤ s.params.cooldown)
Fires Rule.notify_rate s =
    OneOf s.req.action notify_actions
    × (s.state.last_notify_at ≢ zero_time)
    × (sub_time s.now s.state.last_notify_at <ℤ s.cfg.notify_window)
Fires Rule.action_budget s =
    (¬ OneOf s.req.action safe_actions) × (s.cfg.action_budget ≤ℤ s.state.actions_this_run)
Fires Rule.default_allow s = Unit

-- What a rule decides when it is the one to decide.
abbrev pub verdict_of : Rule → Verdict
verdict_of Rule.default_allow = Verdict.allow
verdict_of Rule.kill_switch = Verdict.deny
verdict_of Rule.idempotency = Verdict.deny
verdict_of Rule.not_yet_due = Verdict.deny
verdict_of Rule.promise_hold = Verdict.deny
verdict_of Rule.quiet_hours = Verdict.deny
verdict_of Rule.cooldown = Verdict.deny
verdict_of Rule.notify_rate = Verdict.deny
verdict_of Rule.action_budget = Verdict.deny
verdict_of _ = Verdict.escalate

-- The rule whose denial is a replay and not a refusal.
abbrev pub is_replay : Rule → Bool
is_replay Rule.idempotency = true
is_replay _ = false

-- The first rule of the list that fires is `r`.
abbrev pub FirstToFire : Scene → List Rule → Rule → Type 0
FirstToFire s [] r = ⊥
FirstToFire s (q ∷ qs) r = (Fires q s × (q ≡ r)) ⊎ ((¬ Fires q s) × FirstToFire s qs r)
