-- ===== src/Policy.antt =====
-- internal/policy/policy.go: the gate that decides one proposed action. The proofs are in the
-- modules below, and internal/policy/riskitem.go is Policy/Adapter.antt.
mod Sources
mod Model
mod Texts
mod Rules
pub mod Fires
pub mod Kinds
pub mod Order
pub mod Allowed
pub mod Contact
pub mod Adapter
pub mod Settings
mod Examples
pub use Sources.{SourceParams}
unfoldable pub use Sources.{
  source_failed_payment, source_unpaid_order, source_overdue_invoice, source_params, sources,
  known_source, lawful_actions, is_lawful_action, is_contact_action, is_notify_action,
  is_safe_action, terminal_source_statuses, is_terminal_source_status,
}
pub use Model.{Verdict, allow, deny, Rule, Reason, Config, State, Request, Decision}
unfoldable pub use Model.{
  rule_ids, with_defaults, normalize_state, normalize_request, allowed, idempotency_key,
  default_max_touches_per_item,
}
unfoldable pub use Texts.{verdict_text, rule_text}
pub use Rules.{Scene, Ruling}
use rzp_rebound.Prelude.{
  ℕ, ◌*◌, String, false, Option, none, some, lookup, if◌then◌else◌, ℤ, pos, ltb_ℤ, ◌-ℤ◌, wrap64,
  max_ℤ,
}
use rzp_rebound.Time.{Instant, Location, Duration, hour}

-- What the gate uses of the platform: the tz database's answer for Asia/Kolkata, and crypto/sha256
-- followed by the hex encoding.
pub record Platform : Type 0 where
  pub kolkata : Option Location
  pub sha256_hex : String → String

abbrev pub default_cooldown : Duration
default_cooldown = pos (24 * hour)

-- The row of a source, or the fallback one.
unfoldable pub params_row : String → SourceParams
params_row source = elim (lookup source source_params) [
  | none ↦ record {
    source = source;
    grace = pos 0;
    max_touches = default_max_touches_per_item;
    cooldown = default_cooldown;
    requires_signal = false;
  }
  | some row ↦ row
]

-- p.ParamsFor(source)
unfoldable pub params_for : Config → String → SourceParams
params_for cfg source =
    let row = params_row source in
    record row {
      max_touches =
          if ltb_ℤ (pos 0) cfg.max_touches_per_item
          then cfg.max_touches_per_item
          else row.max_touches;
      cooldown = if ltb_ℤ (pos 0) cfg.cooldown then cfg.cooldown else row.cooldown;
    }

-- A return of one rule ends Evaluate; otherwise the next rule is tried.
infixr 20 ◌orelse◌
pub ◌orelse◌ : Option Ruling → Ruling → Ruling
none orelse r = r
(some r) orelse _ = r

-- R0
abbrev pub allow_ruling : Ruling
allow_ruling = record {
  verdict = allow;
  rule = Rule.default_allow;
  reason = Reason.not_refused;
  replay = false;
}

-- The rules in the order in which Evaluate tries them.
first_ruling : Scene → Ruling
first_ruling s =
    Rules.kill_switch s
    orelse Rules.idempotency s
    orelse Rules.unknown_fail_closed s
    orelse Rules.not_yet_due s
    orelse Rules.no_contact_channel s
    orelse Rules.never_contact s
    orelse Rules.promise_hold s
    orelse Rules.quiet_hours s
    orelse Rules.disputed s
    orelse Rules.human_approval s
    orelse Rules.max_touches s
    orelse Rules.cooldown s
    orelse Rules.notify_rate s
    orelse Rules.action_budget s
    orelse allow_ruling

-- What the rules see of a call of Evaluate at the instant `now`. The settings are those of
-- policy.New, the defaults filled in.
unfoldable pub scene : Platform → Config → Instant → State → Request → Scene
scene platform cfg now state req =
    let r = normalize_request req in
    record {
      kolkata = platform.kolkata;
      cfg = cfg;
      now = now;
      state = normalize_state state;
      req = r;
      params = params_for cfg r.source;
      safe = is_safe_action r.action;
    }

unfoldable pub evaluate : Platform → Config → Instant → State → Request → Decision
unfolding first_ruling ◌orelse◌
evaluate platform cfg now state req =
    let s = scene platform cfg now state req in
    let ruling = first_ruling s in
    record {
      verdict = ruling.verdict;
      rule_id = ruling.rule;
      reason = ruling.reason;
      remaining = max_ℤ (wrap64 (s.params.max_touches -ℤ s.state.touches_made)) (pos 0);
      idempotent_replay = ruling.replay;
      idempotency_key =
          idempotency_key platform.sha256_hex s.req.risk_item_id s.req.action s.req.touch_no;
    }
