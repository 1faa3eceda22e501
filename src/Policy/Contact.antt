-- ===== src/Policy/Contact.antt =====
-- What follows for the customer when the gate allows a contact.
use rzp_rebound.Prelude.{
  ◌+◌, ◌^◌, ◌≤◌, ◌<◌, negsuc, Bool-cases, true_of_not_false, false_of_not_true, ◌≡◌, ◌≢◌, ◌⊎◌, inl,
  inr, true, false, OneOf, pos, pos_part, ◌≤ℤ◌, ◌<ℤ◌, arith, ltb_ℤ,
}
use native.Mathlib.Decide.{ℕ_discrete}
use rzp_rebound.Action
use rzp_rebound.Time.{Instant, Duration, zero_time, sub_time}
use rzp_rebound.Time.Elapsed.{sub_time-lt_iff}
use rzp_rebound.Classify.{never_retry}
use rzp_rebound.Policy.{
  Platform, Config, State, Request, Scene, allow, scene, evaluate, params_for, normalize_request,
  terminal_source_statuses,
}
use rzp_rebound.Policy.Fires.{contact_actions}
use rzp_rebound.Policy.Allowed.{NoneFires, contact_unsafe, evaluate_allow_iff}

-- An interval as a Duration holds it: positive and within 64 bits.
abbrev pub IsInterval : Duration → Type 0
IsInterval d = (pos 0 <ℤ d) × (d <ℤ pos (2 ^ 63))

elapsed :
    (now t : Instant) (d : Duration) → IsInterval d → ¬ (sub_time now t <ℤ d) → t + pos_part d ≤ now
elapsed now t (pos d) i h = ground (arith, sub_time-lt_iff now t d)
elapsed now t (negsuc d) i h = ground arith

-- What holds of an allowed contact, in terms of the request after its normalisation.
pub record ContactIsFair (s : Scene) : Type 0 where
  pub reachable : (s.req.has_email ≡ true) ⊎ (s.req.has_contact ≡ true)
  pub by_email : s.req.action ≡ Action.notify_email → s.req.has_email ≡ true
  pub by_phone : s.req.action ≡ Action.notify_sms → s.req.has_contact ≡ true
  pub owed : pos 0 <ℤ s.req.amount_due_paise
  pub under_ceiling : s.req.amount_due_paise ≤ℤ s.cfg.amount_ceiling_paise
  pub not_disputed : s.req.disputed ≡ false
  pub not_refused : s.req.class ≢ never_retry
  pub not_closed : ¬ OneOf s.req.source_status terminal_source_statuses
  pub no_promise : s.req.promise_hold_until ≤ s.now
  pub touches_left : s.state.touches_made <ℤ s.params.max_touches
  pub budget_left : s.state.actions_this_run <ℤ s.cfg.action_budget
  pub spaced :
      (s.state.last_touch_at ≡ zero_time)
      ⊎ (s.state.last_touch_at + pos_part s.params.cooldown ≤ s.now)
  pub due : (s.params.grace ≤ℤ pos 0) ⊎ (s.req.at_risk_since + pos_part s.params.grace ≤ s.now)

ContactIsFair-of_NoneFires :
    (s : Scene)
    → NoneFires s
    → OneOf s.req.action contact_actions
    → IsInterval s.params.cooldown
    → s.params.grace <ℤ pos (2 ^ 63)
    → ContactIsFair s
ContactIsFair-of_NoneFires s n c cool grace =
    let unsafe = contact_unsafe s.req.action c in
    let (_, (_, (_, (due, (channel, (never, later)))))) = n in
    let (promise, (_, (disputed, (human, (touches, (cooldown, (_, (budget, _)))))))) = later in
    record {
      reachable = elim (Bool-cases s.req.has_email) [
        | inl e ↦ inl e
        | inr e ↦ inr (true_of_not_false _ (λ f. channel (c, inl (e, f))))
      ];
      by_email = λ e. true_of_not_false _ (λ f. channel (c, inr (inl (e, f))));
      by_phone = λ e. true_of_not_false _ (λ f. channel (c, inr (inr (e, f))));
      owed = omega (arith, λ (h : s.req.amount_due_paise ≤ℤ pos 0). never (c, inr (inr h)));
      under_ceiling = omega (
        arith,
        λ (h : s.cfg.amount_ceiling_paise <ℤ s.req.amount_due_paise). human (inr (unsafe, h)),
      );
      not_disputed = false_of_not_true _ (λ d. disputed (unsafe, d));
      not_refused = λ e. never (c, inl e);
      not_closed = λ e. never (c, inr (inl e));
      no_promise = omega (arith, λ (h : s.now < s.req.promise_hold_until). promise (unsafe, h));
      touches_left =
          omega (arith, λ (h : s.params.max_touches ≤ℤ s.state.touches_made). touches (c, h));
      budget_left =
          omega
            (arith, λ (h : s.cfg.action_budget ≤ℤ s.state.actions_this_run). budget (unsafe, h));
      spaced = elim (ℕ_discrete s.state.last_touch_at zero_time) [
        | yes never_touched ↦ inl never_touched
        | no touched ↦ inr (
            elapsed s.now s.state.last_touch_at s.params.cooldown cool
              (λ h. cooldown (c, touched, h)))
      ];
      due = elim (Bool-cases (ltb_ℤ (pos 0) s.params.grace)) [
        | inl some_grace ↦
            let positive : pos 0 <ℤ s.params.grace = ground arith in
            inr (
              elapsed s.now s.req.at_risk_since s.params.grace (positive, grace)
                (λ h. due (unsafe, positive, inr h)))
        | inr no_grace ↦ inl (ground arith)
      ];
    }

-- An allowed contact is fair: the item has a channel, the one that the action names included;
-- something is owed, and no more than the ceiling; the debt is not disputed, its payment not
-- refused by a risk check and its resource not closed; no promise holds; contacts and budget are
-- left; a cooldown has passed since the last contact, and the grace period since the item was at
-- risk. The cooldown in force is taken to be a positive int64, the grace period an int64.
pub allowed_contact_fair :
    (platform : Platform) (cfg : Config) (now : Instant) (state : State) (req : Request)
    → (evaluate platform cfg now state req).verdict ≡ allow
    → OneOf req.action contact_actions
    → IsInterval (params_for cfg req.source).cooldown
    → (params_for cfg req.source).grace <ℤ pos (2 ^ 63)
    → ContactIsFair (scene platform cfg now state req)
unfolding scene normalize_request
allowed_contact_fair platform cfg now state req v =
    ContactIsFair-of_NoneFires (scene platform cfg now state req)
      ((evaluate_allow_iff platform cfg now state req).0 v)
