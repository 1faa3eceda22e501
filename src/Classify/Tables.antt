-- ===== src/Classify/Tables.antt =====
-- The tables of internal/classify/classify.go.
use rzp_rebound.Prelude.{String, Bool, true, false, List, [], ◌∷◌, Dict}

pub data Class : Type 0 where
  unclassified transient_retry_eligible retry_eligible reauth_required : Class
  new_instrument_required never_retry : Class

-- Go's == on two classes.
abbrev pub eq_class : Class → Class → Bool
eq_class unclassified unclassified = true
eq_class transient_retry_eligible transient_retry_eligible = true
eq_class retry_eligible retry_eligible = true
eq_class reauth_required reauth_required = true
eq_class new_instrument_required new_instrument_required = true
eq_class never_retry never_retry = true
eq_class _ _ = false

unfoldable pub class_names : List (Class × String)
class_names =
    (unclassified, "unclassified")
    ∷ (transient_retry_eligible, "transient_retry_eligible")
    ∷ (retry_eligible, "retry_eligible")
    ∷ (reauth_required, "reauth_required")
    ∷ (new_instrument_required, "new_instrument_required")
    ∷ (never_retry, "never_retry")
    ∷ []

abbrev pub reason_payment_risk_check_failed : String
reason_payment_risk_check_failed = "payment_risk_check_failed"

unfoldable pub card_reasons : Dict Class
card_reasons =
    ("payment_timed_out", transient_retry_eligible)
    ∷ ("gateway_technical_error", transient_retry_eligible)
    ∷ ("bank_technical_error", transient_retry_eligible)
    ∷ ("insufficient_funds", retry_eligible)
    ∷ ("authentication_failed", reauth_required)
    ∷ ("payment_cancelled", reauth_required)
    ∷ ("incorrect_cvv", reauth_required)
    ∷ ("card_declined", new_instrument_required)
    ∷ ("card_disabled_for_online_payments", new_instrument_required)
    ∷ ("card_not_enrolled", new_instrument_required)
    ∷ ("card_expired", new_instrument_required)
    ∷ ("debit_instrument_inactive", new_instrument_required)
    ∷ ("debit_instrument_blocked", new_instrument_required)
    ∷ ("transaction_limit_exceeded", new_instrument_required)
    ∷ (reason_payment_risk_check_failed, never_retry)
    ∷ []

unfoldable pub upi_reasons : Dict Class
upi_reasons =
    ("bank_technical_error", transient_retry_eligible)
    ∷ ("credit_failed", transient_retry_eligible)
    ∷ ("vpa_resolution_failed", transient_retry_eligible)
    ∷ ("payment_timed_out", transient_retry_eligible)
    ∷ ("insufficient_funds", retry_eligible)
    ∷ ("payment_collect_request_expired", reauth_required)
    ∷ ("payment_declined", reauth_required)
    ∷ ("invalid_vpa", new_instrument_required)
    ∷ []

unfoldable pub test_mode_card_table_reasons : Dict Class
test_mode_card_table_reasons =
    ("insufficient_fund", retry_eligible) ∷ ("card_number_invalid", new_instrument_required) ∷ []

unfoldable pub reason_tables : List (Dict Class)
reason_tables = card_reasons ∷ upi_reasons ∷ test_mode_card_table_reasons ∷ []

unfoldable pub error_classes : Dict Class
error_classes =
    ("GATEWAY_ERROR", transient_retry_eligible) ∷ ("BAD_REQUEST_ERROR", never_retry) ∷ []
