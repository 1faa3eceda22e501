-- ===== src/RiskRun/Examples.antt =====
-- One item of a run: a failed payment with a link that is already payable.
use rzp_rebound.Prelude.{
  ◌<◌, insert, String, ◌≡◌, refl, false, true, All, none, some, [], ◌∷◌, pos, arith, lookup_or,
  lookup, ◌<ℤ◌, ◌^◌, ◌+◌, ◌*◌,
}
use rzp_rebound.Time.{of_unix, unix, Instant, second, unix_epoch, zero_time, fixed_zone}
use rzp_rebound.Quiet.{always_open, ist_offset_seconds}
use rzp_rebound.Classify.{
  unclassified, classify, by_method, documented_reasons, card_reasons, classify_across,
  reason_tables, upi_reasons, test_mode_card_table_reasons,
}
use rzp_rebound.RiskItem.{RiskItem, handle_kind_payment_link}
use rzp_rebound.Promise
use rzp_rebound.Promise.{log, new_store, records, latest, active_at, active_hold}
use rzp_rebound.RiskRun.Manifest.{ManifestIndex, new_manifest_index}
use rzp_rebound.Policy.{source_failed_payment}
use rzp_rebound.Policy.Adapter.{Facts, has_signal}
use rzp_rebound.RiskRun.{new_ledger, class_for, Gate, Trail, Instants, Pass, run}
use rzp_rebound.RiskRun.Replay.{run_fresh}

abbrev pub gate : Gate
gate = record {
  platform = record { kolkata = none; sha256_hex = λ text. text };
  cfg = record {
    max_touches_per_item = pos 0;
    cooldown = pos 0;
    notify_window = pos second;
    amount_ceiling_paise = pos 1500000;
    write_off_floor_paise = pos 10000;
    action_budget = pos 500;
    contact_window = always_open;
    contact_location = some (fixed_zone ist_offset_seconds);
    kill_switch = false;
    max_attempts_per_order = pos 0;
  };
  kill_switch = false;
}

abbrev pub now : Instant
now = (unix_epoch + 1_700_000_000) * second

abbrev pub item : RiskItem
item = record {
  id = "ri_1";
  source = source_failed_payment;
  source_id = "pay_1";
  root_order_id = "order_1";
  customer = record { name = "A"; email = "a@example.com"; contact = "" };
  amount_paise = pos 50000;
  amount_paid_paise = pos 0;
  amount_due_paise = pos 50000;
  currency = "INR";
  at_risk_since = pos 1699990000;
  signal = record {
    failure_code = "BAD_REQUEST_ERROR";
    failure_reason = "payment_cancelled";
    failure_source = "customer";
    failure_step = "payment_authentication";
    method = "card";
    attempts = pos 1;
    email_status = "";
    sms_status = "";
  };
  pay_handle = record {
    kind = handle_kind_payment_link;
    url = "https://rzp.io/i/1";
    id = "plink_1";
  };
}

abbrev opaque : RiskItem
opaque = record item { signal = record item.signal { failure_reason = "payment_failed" } }

abbrev pub facts : Facts
facts = record {
  touch_no = pos 1;
  promise_hold_until = zero_time;
  disputed = false;
  source_status = "created";
}

abbrev pub written : Trail
written = record { classified = true; evaluated = true; escalated = true }

abbrev pub clock : Instants
clock = record { decided = now; escalated = now }

abbrev pass : Pass
pass = record {
  item = item;
  facts = facts;
  clock = clock;
  trail = written;
  arm = "a1-engine";
  dry_run = false;
  accepted = true;
  committed_at = now;
}

abbrev pub source_of : String → String
source_of id = source_failed_payment

pub small_cap : gate.cfg.max_touches_per_item <ℤ pos (2 ^ 63)
small_cap = omega arith

run_fresh_example : All (λ r. r ≡ false) (run gate new_ledger (pass ∷ pass ∷ [])).1
run_fresh_example = run_fresh gate new_ledger (pass ∷ pass ∷ [])

has_failure : has_signal opaque.signal ≡ true
unfolding has_signal
has_failure = refl

not_recognised : class_for opaque ≡ unclassified
unfolding class_for has_signal classify by_method documented_reasons lookup card_reasons
    classify_across reason_tables upi_reasons test_mode_card_table_reasons
not_recognised = refl

abbrev hold : Promise.Record
hold = record {
  risk_item_id = "ri_1";
  promised_at_unix = pos 1699990000;
  hold_until_unix = pos 1700090000;
  note = "Friday";
}

abbrev promises : Promise.Store
promises = (log new_store hold).0

abbrev index : ManifestIndex
index = new_manifest_index []

hold_covers : active_hold promises "ri_1" now ≡ some hold
unfolding active_hold log records latest active_at Promise.validate unix lookup insert lookup_or
hold_covers = refl

hold_lasts : clock.decided < Promise.hold_until hold
unfolding Promise.hold_until of_unix
hold_lasts = omega arith
