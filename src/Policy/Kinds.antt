-- ===== src/Policy/Kinds.antt =====
-- The tests on actions, sources and statuses of internal/policy/sources.go as membership.
use rzp_rebound.Prelude.{
  String, ◌≡◌, ◌↔◌, true, arith, eq_iff, OneOf, contains-OneOf, OneOf-contains,
}
use rzp_rebound.Policy.Sources.{
  source_failed_payment, source_unpaid_order, source_overdue_invoice, sources, known_source,
  lawful_actions, is_lawful_action, is_contact_action, is_notify_action, is_safe_action,
  terminal_source_statuses, is_terminal_source_status,
}
use rzp_rebound.Policy.Fires.{contact_actions, notify_actions, safe_actions}

pub is_contact_action-OneOf : (a : String) → (is_contact_action a ≡ true) ↔ OneOf a contact_actions
unfolding is_contact_action
is_contact_action-OneOf a = (
  λ h. contains-OneOf contact_actions a (ground arith),
  λ h. ground (arith, OneOf-contains contact_actions a h),
)

pub is_notify_action-OneOf : (a : String) → (is_notify_action a ≡ true) ↔ OneOf a notify_actions
unfolding is_notify_action
is_notify_action-OneOf a = (
  λ h. contains-OneOf notify_actions a (ground arith),
  λ h. ground (arith, OneOf-contains notify_actions a h),
)

pub is_safe_action-OneOf : (a : String) → (is_safe_action a ≡ true) ↔ OneOf a safe_actions
unfolding is_safe_action
is_safe_action-OneOf a = (
  λ h. contains-OneOf safe_actions a (ground arith),
  λ h. ground (arith, OneOf-contains safe_actions a h),
)

pub is_lawful_action-OneOf : (a : String) → (is_lawful_action a ≡ true) ↔ OneOf a lawful_actions
unfolding is_lawful_action
is_lawful_action-OneOf a = (contains-OneOf lawful_actions a, OneOf-contains lawful_actions a)

pub is_terminal_source_status-OneOf :
    (a : String) → (is_terminal_source_status a ≡ true) ↔ OneOf a terminal_source_statuses
unfolding is_terminal_source_status
is_terminal_source_status-OneOf a =
    (contains-OneOf terminal_source_statuses a, OneOf-contains terminal_source_statuses a)

pub known_source-OneOf : (a : String) → (known_source a ≡ true) ↔ OneOf a sources
unfolding known_source
known_source-OneOf a = (
  λ h. ground (
    arith,
    eq_iff source_failed_payment a,
    eq_iff source_unpaid_order a,
    eq_iff source_overdue_invoice a,
  ),
  λ h. ground (
    arith,
    eq_iff source_failed_payment a,
    eq_iff source_unpaid_order a,
    eq_iff source_overdue_invoice a,
  ),
)
