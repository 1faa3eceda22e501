-- ===== src/Promise/Examples.antt =====
-- A ledger with two promises of one item.
use rzp_rebound.Prelude.{◌≡◌, ◌≢◌, refl, none, ◌+◌, ◌*◌, pos, arith}
use rzp_rebound.Time.{Instant, second, unix, unix_epoch}
use rzp_rebound.Promise.{
  Record, Store, new_store, validate, active_at, records, log, active_hold, breached, load,
  snapshot,
}
use rzp_rebound.Promise.Hold.{IsLatest, BrokenPromise, active_hold-IsLatest, breached-BrokenPromise}
use rzp_rebound.Promise.Replay.{IsLedger, new_store-IsLedger, log-IsLedger, load-snapshot}

abbrev short : Record
short = record {
  risk_item_id = "ri_1";
  promised_at_unix = pos 1000;
  hold_until_unix = pos 2000;
  note = "Friday";
}

abbrev long : Record
long = record short { hold_until_unix = pos 3000 }

abbrev backwards : Record
backwards = record short { hold_until_unix = pos 500 }

abbrev ledger : Store
ledger = (log (log new_store short).0 long).0

abbrev now : Instant
now = (unix_epoch + 1500) * second

active_hold-IsLatest_example :
    IsLatest (active_at (unix now)) (records ledger "ri_1") (active_hold ledger "ri_1" now)
active_hold-IsLatest_example = active_hold-IsLatest ledger "ri_1" now

breached-BrokenPromise_example : BrokenPromise ledger "ri_1" now (breached ledger "ri_1" now)
breached-BrokenPromise_example = breached-BrokenPromise ledger "ri_1" now

one_promise : IsLedger (log new_store short).0
one_promise = log-IsLedger new_store short new_store-IsLedger

log-IsLedger_example : IsLedger ledger
log-IsLedger_example = log-IsLedger (log new_store short).0 long one_promise

load-snapshot_example :
    load new_store (snapshot (log new_store short).0) ≡ ((log new_store short).0, none)
load-snapshot_example = load-snapshot (log new_store short).0 new_store one_promise

short_valid : validate short ≡ none
unfolding validate
short_valid = refl

backwards_refused : validate backwards ≢ none
unfolding validate
backwards_refused = ground arith
