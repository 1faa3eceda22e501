-- ===== src/Policy/Sources.antt =====
-- internal/policy/sources.go: the three sources with their cadence, the closed action set, and
-- the kinds of action that the rules tell apart. Sources and actions are texts, as in Go.
use rzp_rebound.Prelude.{
  ◌*◌, String, Bool, true, false, ◌==◌, ◌||◌, List, [], ◌∷◌, Dict, lookup, is_some, contains, ℤ,
  pos,
}
use rzp_rebound.Action
use rzp_rebound.Time.{Duration, hour}

abbrev pub source_failed_payment : String
source_failed_payment = "failed_payment"

abbrev pub source_unpaid_order : String
source_unpaid_order = "unpaid_order"

abbrev pub source_overdue_invoice : String
source_overdue_invoice = "overdue_invoice"

pub record SourceParams : Type 0 where
  pub source : String
  pub grace : Duration
  pub max_touches : ℤ
  pub cooldown : Duration
  pub requires_signal : Bool

unfoldable pub source_params : Dict SourceParams
source_params =
    (
      source_failed_payment,
      record {
        source = source_failed_payment;
        grace = pos 0;
        max_touches = pos 3;
        cooldown = pos (24 * hour);
        requires_signal = true;
      },
    )
    ∷ (
      source_unpaid_order,
      record {
        source = source_unpaid_order;
        grace = pos hour;
        max_touches = pos 3;
        cooldown = pos (24 * hour);
        requires_signal = false;
      },
    )
    ∷ (
      source_overdue_invoice,
      record {
        source = source_overdue_invoice;
        grace = pos (72 * hour);
        max_touches = pos 4;
        cooldown = pos (48 * hour);
        requires_signal = false;
      },
    )
    ∷ []

abbrev pub sources : List String
sources = source_failed_payment ∷ source_unpaid_order ∷ source_overdue_invoice ∷ []

unfoldable pub known_source : String → Bool
unfolding lookup source_params
known_source source = is_some (lookup source source_params)

abbrev pub lawful_actions : List String
lawful_actions =
    Action.notify_email ∷ Action.notify_sms ∷ Action.create_payment_link ∷ Action.resend_link
    ∷ Action.log_promise ∷ Action.escalate ∷ Action.cancel_write_off ∷ Action.do_nothing ∷ []

unfoldable pub is_lawful_action : String → Bool
is_lawful_action action = contains lawful_actions action

unfoldable pub is_contact_action : String → Bool
is_contact_action action =
    action == Action.notify_email
    || action == Action.notify_sms
    || action == Action.create_payment_link
    || action == Action.resend_link

unfoldable pub is_notify_action : String → Bool
is_notify_action action =
    action == Action.notify_email || action == Action.notify_sms || action == Action.resend_link

unfoldable pub is_safe_action : String → Bool
is_safe_action action =
    action == Action.escalate || action == Action.do_nothing || action == Action.log_promise

abbrev pub terminal_source_statuses : List String
terminal_source_statuses = "cancelled" ∷ "canceled" ∷ "expired" ∷ []

unfoldable pub is_terminal_source_status : String → Bool
is_terminal_source_status status = contains terminal_source_statuses status
