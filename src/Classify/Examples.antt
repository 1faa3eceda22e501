-- ===== src/Classify/Examples.antt =====
-- Failures that the test cards produce.
use rzp_rebound.Prelude.{lookup, ◌≡◌, refl, ◌↔◌, none, All}
use rzp_rebound.Classify.{
  never_retry, classify_across, Failure, reason_tables, card_reasons, upi_reasons,
  test_mode_card_table_reasons,
}
use rzp_rebound.Classify.Agreement.{Found, Holds, Classifies, classify_across_iff}

abbrev risk : Failure
risk = record {
  code = "BAD_REQUEST_ERROR";
  reason = "payment_risk_check_failed";
  source = "business";
  step = "payment_authorization";
  method = "card";
}

abbrev opaque : Failure
opaque = record risk { reason = "payment_failed" }

risk_known : All (Classifies "payment_risk_check_failed") reason_tables
unfolding reason_tables card_reasons upi_reasons test_mode_card_table_reasons lookup
risk_known = (λ e. cc, (λ e. cc, (λ e. cc, tt)))

opaque_absent : All (λ table. lookup "payment_failed" table ≡ none) reason_tables
unfolding reason_tables card_reasons upi_reasons test_mode_card_table_reasons lookup
opaque_absent = (refl, (refl, (refl, tt)))

classify_across_iff_example :
    (classify_across reason_tables "payment_risk_check_failed" ≡ never_retry) ↔ (
      Found "payment_risk_check_failed" reason_tables
      × All (Holds never_retry "payment_risk_check_failed") reason_tables)
classify_across_iff_example =
    classify_across_iff reason_tables "payment_risk_check_failed" never_retry risk_known (λ e. cc)
