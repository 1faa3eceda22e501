-- ===== src/Promise.antt =====
-- internal/promise/promise.go: the ledger of promises to pay. The lock is left out, since each
-- operation is one step; JSON enters as the list of records that it encodes.
pub mod Hold
pub mod Replay
mod Examples
use rzp_rebound.Prelude.{
  ℕ, suc, String, ◌==◌, Bool, ◌&&◌, Option, none, some, List, [], ◌∷◌, ◌++◌, if◌then◌else◌, ℤ, pos,
  ltb_ℤ, leb_ℤ, Dict, insert, lookup_or, length,
}
use rzp_rebound.Time.{Instant, Duration, unix, of_unix, add_time}

pub record Record : Type 0 where
  pub risk_item_id : String
  pub promised_at_unix : ℤ
  pub hold_until_unix : ℤ
  pub note : String

-- New
unfoldable pub new : String → Instant → Duration → String → Record
unfolding unix add_time
new risk_item_id promised_at hold note = record {
  risk_item_id = risk_item_id;
  promised_at_unix = unix promised_at;
  hold_until_unix = unix (add_time promised_at hold);
  note = note;
}

-- r.HoldUntil()
unfoldable pub hold_until : Record → Instant
hold_until r = of_unix r.hold_until_unix

pub data RecordError : Type 0 where
  no_item : RecordError
  no_instant : String → RecordError
  ends_early : String → ℤ → ℤ → RecordError

unfoldable pub validate : Record → Option RecordError
validate r =
    if r.risk_item_id == ""
    then some no_item
    else if leb_ℤ r.promised_at_unix (pos 0)
    then some (no_instant r.risk_item_id)
    else if leb_ℤ r.hold_until_unix r.promised_at_unix
    then some (ends_early r.risk_item_id r.hold_until_unix r.promised_at_unix)
    else none

-- r.ActiveAt(now), at the Unix second of `now`
unfoldable pub active_at : ℤ → Record → Bool
active_at sec r = leb_ℤ r.promised_at_unix sec && ltb_ℤ sec r.hold_until_unix

-- r.BreachedAt(now), at the Unix second of `now`
unfoldable pub breached_at : ℤ → Record → Bool
breached_at sec r = leb_ℤ r.hold_until_unix sec

pub record Store : Type 0 where
  pub by_item : Dict (List Record)
  pub ordered : List Record

abbrev pub new_store : Store
new_store = record { by_item = []; ordered = [] }

-- s.byItem[riskItemID], nil for a missing key
unfoldable pub records : Store → String → List Record
unfolding lookup_or
records s id = lookup_or [] id s.by_item

-- A record that does not validate is not stored, and its error is returned.
unfoldable pub log : Store → Record → Store × Option RecordError
unfolding records insert
log s r = elim (validate r) [
  | some e ↦ (s, some e)
  | none ↦ (
    record {
      by_item = insert r.risk_item_id (records s r.risk_item_id ++ r ∷ []) s.by_item;
      ordered = s.ordered ++ r ∷ [];
    },
    none,
  )
]

-- The loop of latestLocked; `best` is `none` until a record was found.
latest_from : (Record → Bool) → Option Record → List Record → Option Record
latest_from want best [] = best
latest_from want best (r ∷ rs) =
    latest_from want
      (if want r
        then elim best [
          | none ↦ some r
          | some b ↦ if ltb_ℤ b.hold_until_unix r.hold_until_unix then some r else some b
        ]
        else best)
      rs

unfoldable pub latest : (Record → Bool) → List Record → Option Record
unfolding latest_from
latest want rs = latest_from want none rs

unfoldable pub active_hold : Store → String → Instant → Option Record
active_hold s id now = latest (active_at (unix now)) (records s id)

unfoldable pub breached : Store → String → Instant → Option Record
breached s id now = elim (active_hold s id now) [
  | some r ↦ none
  | none ↦ latest (breached_at (unix now)) (records s id)
]

-- s.Len()
unfoldable pub len : Store → ℕ
len s = length s.ordered

-- s.Snapshot(), which is also what MarshalJSON encodes.
unfoldable pub snapshot : Store → List Record
snapshot s = s.ordered

-- The loop of UnmarshalJSON over the decoded rows: the store, or the first row that does not load.
unfoldable pub load_from : Store → ℕ → List Record → Store × Option (ℕ × RecordError)
load_from s i [] = (s, none)
load_from s i (r ∷ rs) =
    let rest = load_from (log s r).0 (suc i) rs in
    elim (log s r).1 [ none ↦ rest | some e ↦ (s, some (i, e)) ]

-- UnmarshalJSON: a load that fails leaves the ledger as it was.
unfoldable pub load : Store → List Record → Store × Option (ℕ × RecordError)
load s rows =
    let (rebuilt, failed) = load_from new_store 0 rows in
    elim failed [ none ↦ (rebuilt, none) | some e ↦ (s, some e) ]
