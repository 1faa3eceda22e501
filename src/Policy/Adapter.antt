-- ===== src/Policy/Adapter.antt =====
-- internal/policy/riskitem.go: from an item to a request of the gate.
use rzp_rebound.Prelude.{String, Bool, not, ◌||◌, ◌==◌, if◌then◌else◌, ℤ, pos, ltb_ℤ}
use rzp_rebound.Time.{Instant, zero_time, of_unix}
use rzp_rebound.Classify.{Class, unclassified}
use rzp_rebound.RiskItem.{RiskItem, Signal}
use rzp_rebound.Policy.{Request}

pub record Facts : Type 0 where
  pub touch_no : ℤ
  pub promise_hold_until : Instant
  pub disputed : Bool
  pub source_status : String

unfoldable pub has_signal : Signal → Bool
has_signal s = not (s.failure_reason == "") || not (s.failure_code == "")

unfoldable pub request_from_classified : RiskItem → String → Class → Facts → Request
request_from_classified item action class facts = record {
  risk_item_id = item.id;
  source = item.source;
  action = action;
  class = class;
  signal_present = has_signal item.signal;
  amount_paise = item.amount_paise;
  amount_due_paise = item.amount_due_paise;
  has_email = not (item.customer.email == "");
  has_contact = not (item.customer.contact == "");
  source_status = facts.source_status;
  disputed = facts.disputed;
  at_risk_since =
      if ltb_ℤ (pos 0) item.at_risk_since then of_unix item.at_risk_since else zero_time;
  promise_hold_until = facts.promise_hold_until;
  touch_no = facts.touch_no;
  order_id = "";
  attempt_no = pos 0;
}

unfoldable pub request_from : RiskItem → String → Facts → Request
unfolding request_from_classified has_signal
request_from item action facts = request_from_classified item action unclassified facts
