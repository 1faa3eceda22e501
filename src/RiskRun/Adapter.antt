-- ===== src/RiskRun/Adapter.antt =====
-- promiseAdapter of internal/riskrun/riskrun.go: a promise that the engine logs is one that the
-- gate's next decision reads.
use rzp_rebound.Prelude.{
  String, ◌≡◌, refl, sym, ◌∙◌, ◌⊎◌, true, false, eq_iff, Option, none, some, List, [], ◌∷◌, ◌++◌, ℤ,
  ◌≤ℤ◌, ◌<ℤ◌, ◌<◌, ◌≤◌, arith, All, lookup_or, lookup-insert, false≢true,
}
use rzp_rebound.Action
use rzp_rebound.Time.{Instant, unix, of_unix, add_time}
use rzp_rebound.Promise
use rzp_rebound.Promise.{Store, active_at, active_hold, records, validate}
use rzp_rebound.Promise.Hold.{active_hold-IsLatest, IsLatest}
use rzp_rebound.RiskItem.{RiskItem, Outcome}
use rzp_rebound.Intervene.{Setup, Context, PromiseRecord, promise_record}
use rzp_rebound.RiskRun.{Gate, Ledger, Instants, Trail, touch_no, choose}
use rzp_rebound.RiskRun.Manifest.{ManifestIndex, facts_for}
use rzp_rebound.RiskRun.Promises.{choose_held}

-- promise.Record(rec)
unfoldable pub adapt : PromiseRecord → Promise.Record
adapt rec = record {
  risk_item_id = rec.risk_item_id;
  promised_at_unix = rec.promised_at_unix;
  hold_until_unix = rec.hold_until_unix;
  note = rec.note;
}

-- a.Log
unfoldable pub adapter_log : Store → PromiseRecord → Store × Option Promise.RecordError
adapter_log store rec = Promise.log store (adapt rec)

logged_records :
    (store : Store) (r : Promise.Record)
    → (Promise.log store r).1 ≡ none
    → records (Promise.log store r).0 r.risk_item_id ≡ records store r.risk_item_id ++ r ∷ []
unfolding Promise.log records lookup_or
logged_records store r ok = ground (
  arith,
  ok,
  eq_iff r.risk_item_id r.risk_item_id,
  lookup-insert r.risk_item_id r.risk_item_id (records store r.risk_item_id ++ r ∷ [])
      store.by_item,
)

All-last : {A : Type 0} (P : A → Type 0) (xs : List A) (x : A) → All P (xs ++ x ∷ []) → P x
All-last P [] x h = h.0
All-last P (y ∷ ys) x h = All-last P ys x h.1

-- While a logged record covers now, the hold that is in force ends no earlier.
logged_holds :
    (store : Store) (r : Promise.Record) (now : Instant)
    → (Promise.log store r).1 ≡ none
    → active_at (unix now) r ≡ true
    → (held : Promise.Record) × (active_hold (Promise.log store r).0 r.risk_item_id now ≡ some held)
      × (r.hold_until_unix ≤ℤ held.hold_until_unix)
logged_holds store r now ok covers =
    go (active_hold (Promise.log store r).0 r.risk_item_id now) refl (
      rw (logged_records store r ok) at
        (active_hold-IsLatest (Promise.log store r).0 r.risk_item_id now))
  where
    go :
        (o : Option Promise.Record)
        → active_hold (Promise.log store r).0 r.risk_item_id now ≡ o
        → IsLatest (active_at (unix now)) (records store r.risk_item_id ++ r ∷ []) o
        → (held : Promise.Record) × (active_hold (Promise.log store r).0 r.risk_item_id now
            ≡ some held)
          × (r.hold_until_unix ≤ℤ held.hold_until_unix)
    go none e h =
        absurd (false≢true (sym (All-last (λ x. active_at (unix now) x ≡ false) _ r h) ∙ covers))
    go (some held) e (_, _, after) = (
      held,
      e,
      All-last (λ x. active_at (unix now) x ≡ true → x.hold_until_unix ≤ℤ held.hold_until_unix) _ r
          after covers,
    )

of_unix_mono : (a b : ℤ) → a ≤ℤ b → of_unix a ≤ of_unix b
unfolding of_unix
of_unix_mono a b h = ground arith

-- After a promise about an item went down, a run comes to no action about the item, or to handing
-- it to a person, whatever the gate, the ledger and the manifest, for as long as the engine was to
-- hold it: from the second of the promise until its end, by the clocks of the run and of the gate.
pub logged_promise_stops :
    (s : Setup) (ctx : Context) (out : Outcome) (store : Store) (g : Gate) (l : Ledger)
    (now : Instant) (clock : Instants) (item : RiskItem) (idx : ManifestIndex) (trail : Trail)
    → let rec = promise_record s ctx item out in
      let until = unix (add_time out.at s.promise_hold) in
      (adapter_log store rec).1 ≡ none
      → unix out.at ≤ℤ unix now
      → unix now <ℤ until
      → clock.decided < of_unix until
      → let promises = (adapter_log store rec).0 in
        let chosen =
          choose g l clock item (facts_for idx promises item (touch_no l item.id) now) trail in
        (chosen ≡ none) ⊎ ((key : String) × (chosen ≡ some (Action.escalate, key)))
unfolding adapter_log adapt promise_record active_at Promise.hold_until
logged_promise_stops s ctx out store g l now clock item idx trail ok from before ahead =
    let r = adapt (promise_record s ctx item out) in
    let covers : active_at (unix now) r ≡ true = ground arith in
    let (held, found, longer) = logged_holds store r now ok covers in
    let later = of_unix_mono r.hold_until_unix held.hold_until_unix longer in
    choose_held g l now clock item idx (Promise.log store r).0 trail held found
      (omega (arith, ahead, later))
