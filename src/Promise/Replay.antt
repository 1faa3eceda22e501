-- ===== src/Promise/Replay.antt =====
-- What the ledger keeps: every valid promise in order, its index by item, and a trail that loads
-- back to it.
use rzp_rebound.Prelude.{
  ℕ, suc, String, ◌≡◌, refl, ◌==◌, none, some, List, [], ◌∷◌, ◌++◌, All, All-append, arith,
  if◌then◌else◌, lookup, lookup_or, lookup-insert, eq_iff, append-nil, Option-cases, ◌≢◌, inl, inr,
}
use rzp_rebound.Promise.{
  Record, RecordError, Store, new_store, validate, records, log, load_from, load, snapshot,
}

-- The promises against one item, in the order in which they were logged.
abbrev pub of_item : String → List Record → List Record
of_item id [] = []
of_item id (r ∷ rs) = let rest = of_item id rs in if r.risk_item_id == id then r ∷ rest else rest

-- The ledger is what logging its own trail, row after row, builds; every row is valid; and the
-- index by item agrees with the trail.
pub record IsLedger (s : Store) : Type 0 where
  pub replays : (i : ℕ) → load_from new_store i s.ordered ≡ (s, none)
  pub valid : All (λ r. validate r ≡ none) s.ordered
  pub indexed : (id : String) → records s id ≡ of_item id s.ordered

of_item-append :
    (id : String) (rs : List Record) (r : Record)
    → of_item id (rs ++ r ∷ []) ≡ of_item id rs ++ (if r.risk_item_id == id then r ∷ [] else [])
of_item-append id [] r = ground arith
of_item-append id (x ∷ rs) r = ground (arith, of_item-append id rs r)

records-log :
    (s : Store) (r : Record) (id : String)
    → validate r ≡ none
    → records (log s r).0 id
      ≡ (if r.risk_item_id == id then records s id ++ r ∷ [] else records s id)
unfolding log records lookup_or
records-log s r id v = ground (
  arith,
  lookup-insert r.risk_item_id id (records s r.risk_item_id ++ r ∷ []) s.by_item,
  eq_iff r.risk_item_id id,
)

log_stores :
    (s : Store) (r : Record)
    → validate r ≡ none
    → ((log s r).1 ≡ none) × ((log s r).0.ordered ≡ s.ordered ++ r ∷ [])
unfolding log
log_stores s r v = ground arith

log_refuses :
    (s : Store) (r : Record) {e : RecordError} → validate r ≡ some e → log s r ≡ (s, some e)
unfolding log
log_refuses s r v = ground arith

load_from-append :
    (t u : Store) (i : ℕ) (rs : List Record) (r : Record)
    → load_from t i rs ≡ (u, none)
    → validate r ≡ none
    → load_from t i (rs ++ r ∷ []) ≡ ((log u r).0, none)
unfolding load_from
load_from-append t u i [] r e v = ground (arith, log_stores t r v)
load_from-append t u i (x ∷ rs) r e v = ground (arith, load_from-append (log t x).0 u (suc i) rs r)

pub new_store-IsLedger : IsLedger new_store
unfolding load_from records lookup_or lookup
new_store-IsLedger = record { replays = λ i. refl; valid = tt; indexed = λ id. refl }

log-IsLedger_valid :
    (s : Store) (r : Record) → validate r ≡ none → IsLedger s → IsLedger (log s r).0
log-IsLedger_valid s r v h =
    let (_, trail) = log_stores s r v in
    record {
      replays = λ i. rw trail (load_from-append new_store s i s.ordered r (h.replays i) v);
      valid = rw trail (All-append (λ r. validate r ≡ none) s.ordered (r ∷ []) h.valid (v, tt));
      indexed = λ id. rw trail (index id);
    }
  where
    index : (id : String) → records (log s r).0 id ≡ of_item id (s.ordered ++ r ∷ [])
    index id = ground (
      arith,
      records-log s r id v,
      of_item-append id s.ordered r,
      h.indexed id,
      append-nil (of_item id s.ordered),
    )

-- Logging a record, a valid one or not, leaves the ledger in order: its trail replays to it, every
-- row of the trail is valid, and the index by item agrees with the trail.
pub log-IsLedger : (s : Store) (r : Record) → IsLedger s → IsLedger (log s r).0
log-IsLedger s r h = elim (Option-cases (validate r)) [
  | inl v ↦ log-IsLedger_valid s r v h
  | inr (e, v) ↦ rw (log_refuses s r v) h
]

-- A ledger in order is rebuilt, index and all, by loading the trail that it writes, whatever the
-- ledger that the trail is loaded into.
pub load-snapshot : (s t : Store) → IsLedger s → load t (snapshot s) ≡ (s, none)
unfolding load snapshot
load-snapshot s t h = ground (arith, h.replays 0)

load_from_fails :
    (u : Store) (i : ℕ) (good bad : List Record) (r : Record)
    → All (λ r. validate r ≡ none) good
    → validate r ≢ none
    → (load_from u i (good ++ r ∷ bad)).1 ≢ none
unfolding load_from
load_from_fails u i [] bad r valid broken = elim (Option-cases (validate r)) [
  | inl v ↦ absurd (broken v)
  | inr (e, v) ↦ ground (arith, log_refuses u r v)
]
load_from_fails u i (x ∷ good) bad r valid broken =
    ground
      (arith, log_stores u x valid.0, load_from_fails (log u x).0 (suc i) good bad r valid.1 broken)

-- A trail with a row that does not validate is refused whole: the ledger that it is loaded into
-- is left as it was, and an error is returned.
pub load_refuses :
    (t : Store) (good bad : List Record) (r : Record)
    → All (λ r. validate r ≡ none) good
    → validate r ≢ none
    → ((load t (good ++ r ∷ bad)).0 ≡ t) × ((load t (good ++ r ∷ bad)).1 ≢ none)
unfolding load
load_refuses t good bad r valid broken =
    ground (arith, load_from_fails new_store 0 good bad r valid broken)
