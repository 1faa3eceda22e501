-- ===== src/RiskRun/Live/Examples.antt =====
-- Two turns on one item, with an engine whose gateway accepts everything, and a logged promise.
use rzp_rebound.Prelude.{
  String, ◌≡◌, refl, ◌⊎◌, ◌<◌, false, none, some, List, [], ◌∷◌, pos, ◌≤ℤ◌, ◌<ℤ◌, arith,
}
use rzp_rebound.Intervene.Examples.{setup}
use rzp_rebound.RiskRun.Examples.{gate, item, facts, written, clock, source_of, now, small_cap}
use rzp_rebound.RiskRun.Cap.{cap}
use rzp_rebound.RiskRun.Live.{Live, Turn, live_run}
use rzp_rebound.RiskRun.Live.Contacts.{all_contacts, live_run_contacts}
use rzp_rebound.Action
use rzp_rebound.Time.{unix, of_unix, add_time}
use rzp_rebound.Promise
use rzp_rebound.Promise.{new_store, records, validate}
use rzp_rebound.RiskItem.{Outcome}
use rzp_rebound.Intervene.{
  new_engine, Context, PromiseRecord, promise_record, new_setup, reason_for,
}
use rzp_rebound.RiskRun.{new_ledger, touch_no, choose}
use rzp_rebound.RiskRun.Manifest.{new_manifest_index, facts_for}
use rzp_rebound.RiskRun.Adapter.{adapt, adapter_log, logged_promise_stops}

abbrev turn : Turn
turn = record {
  item = item;
  facts = facts;
  clock = clock;
  trail = written;
  arm = "a1-engine";
  dry_run = false;
  reason = "inside the cap";
  applied_at = now;
  recorded_at = now;
  span = none;
  committed_at = now;
}

abbrev turns : List Turn
turns = turn ∷ turn ∷ []

abbrev fresh : Live
fresh = record { ledger = new_ledger; engine = new_engine }

live_run_contacts_example :
    pos (all_contacts "ri_1" (live_run gate setup fresh turns).1) ≤ℤ cap gate (source_of "ri_1")
live_run_contacts_example =
    live_run_contacts gate setup source_of new_engine turns "ri_1" small_cap (refl, (refl, tt))

abbrev ctx : Context
ctx = record { idempotency_key = ""; reason = "said Friday" }

abbrev out : Outcome
out = record {
  action = Action.log_promise;
  accepted = false;
  observable = "";
  handle = record { kind = ""; url = ""; id = "" };
  at = now;
  err = "";
}

abbrev promised : PromiseRecord
promised = promise_record setup ctx item out

goes_down : (adapter_log new_store promised).1 ≡ none
unfolding adapter_log adapt promise_record reason_for new_setup Promise.log validate unix add_time
goes_down = refl

covers_now : unix now <ℤ unix (add_time now setup.promise_hold)
unfolding new_setup unix add_time
covers_now = omega arith

covers_clock : clock.decided < of_unix (unix (add_time now setup.promise_hold))
unfolding new_setup unix add_time of_unix
covers_clock = omega arith

same_second : unix now ≤ℤ unix now
unfolding unix
same_second = omega arith

logged_promise_stops_example :
    let promises = (adapter_log new_store promised).0 in
    let chosen =
      choose gate new_ledger clock item
        (facts_for (new_manifest_index []) promises item (touch_no new_ledger item.id) now)
        written in
    (chosen ≡ none) ⊎ ((key : String) × (chosen ≡ some (Action.escalate, key)))
logged_promise_stops_example =
    logged_promise_stops setup ctx out new_store gate new_ledger now clock item
      (new_manifest_index []) written goes_down same_second covers_now covers_clock
