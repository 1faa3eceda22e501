-- ===== src/RiskRun/Snapshot/Moved.antt =====
-- internal/riskrun/poll.go: Diff, what moved between two snapshots.
use rzp_rebound.Prelude.{
  String, ◌<>◌, not, ◌||◌, ◌==◌, if◌then◌else◌, none, some, List, [], ◌∷◌, ◌++◌, Dict, lookup,
  insert, ℤ, pos, ◌-ℤ◌, wrap64,
}
use rzp_rebound.Time.{Instant}
use rzp_rebound.RiskRun.Snapshot.{SnapshotEntry, Snapshot, key_of, total}

pub record Delta : Type 0 where
  pub from_taken_at : Instant
  pub to_taken_at : Instant
  pub recovered_paise : ℤ
  pub amount_due_change : ℤ
  pub entries_compared : ℤ
  pub entries_unmatched : ℤ
  pub entries_deduped : ℤ
  pub entries_ask_deduped : ℤ
  pub status_changes : List String

unfoldable pub index_entries : Dict SnapshotEntry → List SnapshotEntry → Dict SnapshotEntry
unfolding insert
index_entries idx [] = idx
index_entries idx (e ∷ es) = index_entries (insert (key_of e) e idx) es

-- later - earlier
unfoldable pub change : ℤ → ℤ → ℤ
unfolding wrap64 ◌-ℤ◌
change later earlier = wrap64 (later -ℤ earlier)

-- The money of two readings of one entity
unfoldable pub compare_money : Delta → SnapshotEntry → SnapshotEntry → Delta
compare_money d earlier e =
    let paid = total d.recovered_paise (change e.amount_paid_paise earlier.amount_paid_paise) in
    let due = total d.amount_due_change (change e.amount_due_paise earlier.amount_due_paise) in
    if not (e.duplicate_of == "") || not (earlier.duplicate_of == "")
    then record d { entries_deduped = total d.entries_deduped (pos 1) }
    else if not (e.duplicate_ask_of == "") || not (earlier.duplicate_ask_of == "")
    then record d {
      entries_ask_deduped = total d.entries_ask_deduped (pos 1);
      recovered_paise = paid;
    }
    else record d { recovered_paise = paid; amount_due_change = due }

unfoldable pub compare_entries : Delta → SnapshotEntry → SnapshotEntry → Delta
compare_entries d earlier e =
    let counted = record d { entries_compared = total d.entries_compared (pos 1) } in
    let money = compare_money counted earlier e in
    if not (earlier.status == e.status)
    then record money {
      status_changes =
          money.status_changes ++ (e.id <> (": " <> (earlier.status <> (" -> " <> e.status)))) ∷ [];
    }
    else money

unfoldable pub unmatched : Delta → Delta
unmatched d = record d { entries_unmatched = total d.entries_unmatched (pos 1) }

-- One turn of the loop of Diff
unfoldable pub diff_one : Dict SnapshotEntry → Delta → SnapshotEntry → Delta
unfolding lookup
diff_one idx d e = elim (lookup (key_of e) idx) [
  | none ↦ unmatched d
  | some earlier ↦
      if not (e.err == "") || not (earlier.err == "")
      then unmatched d
      else compare_entries d earlier e
]

unfoldable pub diff_all : Dict SnapshotEntry → Delta → List SnapshotEntry → Delta
diff_all idx d [] = d
diff_all idx d (e ∷ es) = diff_all idx (diff_one idx d e) es

unfoldable pub diff : Snapshot → Snapshot → Delta
unfolding index_entries diff_all
diff before after =
    diff_all (index_entries [] before.entries)
      (record {
        from_taken_at = before.taken_at;
        to_taken_at = after.taken_at;
        recovered_paise = pos 0;
        amount_due_change = pos 0;
        entries_compared = pos 0;
        entries_unmatched = pos 0;
        entries_deduped = pos 0;
        entries_ask_deduped = pos 0;
        status_changes = [];
      })
      after.entries
