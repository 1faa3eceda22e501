-- ===== src/RiskRun/Snapshot/Balanced.antt =====
-- What Diff of internal/riskrun/poll.go reports, against the totals of the two snapshots.
use rzp_rebound.Prelude.{
  ◌≡◌, inl, inr, refl, sym, ◌∙◌, true, false, ◌==◌, some, List, [], ◌∷◌, All, Dict, length, lookup,
  Bool-cases, ℤ, pos, ◌-ℤ◌, wrap64, wrap64_exchange, ap,
}
use rzp_rebound.Time.{Instant}
use rzp_rebound.RiskRun.Snapshot.{
  SnapshotEntry, SkippedItem, SnapshotTotals, new_board, PollApi, PollItem, MintedLink, key_of,
  poll_snapshot, total, total_one, total_all,
}
use rzp_rebound.RiskRun.Snapshot.Keyed.{
  index_found, poll_items-IsKeyed, poll_links-IsKeyed, new_board-IsKeyed,
}
use rzp_rebound.RiskRun.Snapshot.Moved.{
  Delta, change, compare_money, compare_entries, unmatched, diff_one, diff_all, diff,
}

-- Two readings of one entity, both of which failed or neither, and that are marked alike.
abbrev pub Alike : SnapshotEntry → SnapshotEntry → Type 0
Alike e e' =
    (key_of e ≡ key_of e')
    × ((e.err == "") ≡ (e'.err == ""))
    × ((e.duplicate_of == "") ≡ (e'.duplicate_of == ""))
    × ((e.duplicate_ask_of == "") ≡ (e'.duplicate_ask_of == ""))

-- The entries of two snapshots stand side by side.
abbrev pub Aligned : List SnapshotEntry → List SnapshotEntry → Type 0
Aligned [] [] = Unit
Aligned [] (e' ∷ es') = ⊥
Aligned (e ∷ es) [] = ⊥
Aligned (e ∷ es) (e' ∷ es') = Alike e e' × Aligned es es'

-- What is reported to have moved is what the totals differ by, and what was left out is what the
-- totals leave out.
abbrev pub Balances : Delta → SnapshotTotals → SnapshotTotals → Type 0
Balances d t t' =
    (d.recovered_paise ≡ wrap64 (t'.amount_paid_paise -ℤ t.amount_paid_paise))
    × (d.amount_due_change ≡ wrap64 (t'.amount_due_paise -ℤ t.amount_due_paise))
    × (d.entries_unmatched ≡ t'.errors)
    × (d.entries_deduped ≡ t'.duplicates)
    × (d.entries_ask_deduped ≡ t'.duplicate_asks)

total-change :
    (a b p q : ℤ) → total (wrap64 (a -ℤ b)) (change p q) ≡ wrap64 (total a p -ℤ total b q)
unfolding total change
total-change a b p q = wrap64_exchange a b p q

-- A status that moved changes nothing else.
compare_entries-Balances :
    (d : Delta) (e e' : SnapshotEntry) (t t' : SnapshotTotals)
    → Balances
        (compare_money (record d { entries_compared = total d.entries_compared (pos 1) }) e e')
        t
        t'
    → Balances (compare_entries d e e') t t'
unfolding compare_entries
compare_entries-Balances d e e' t t' h = elim (Bool-cases (e.status == e'.status)) [
  | inl same ↦ rw (same, compare_entries) h
  | inr moved ↦ rw (moved, compare_entries) h
]

-- The money of one more pair of entries that were read.
compare_money-Balances :
    (d : Delta) (t t' : SnapshotTotals) (e e' : SnapshotEntry)
    → (e'.err == "") ≡ true
    → Alike e e'
    → Balances d t t'
    → Balances (compare_money d e e') (total_one t e) (total_one t' e')
unfolding compare_money total_one
compare_money-Balances d t t' e e' fine (_, failed, copied, asked)
      (paid, due, left, deduped, asks) =
    let more_paid =
      ap (λ x. total x (change e'.amount_paid_paise e.amount_paid_paise)) paid
      ∙ total-change t'.amount_paid_paise t.amount_paid_paise e'.amount_paid_paise
          e.amount_paid_paise in
    let more_due =
      ap (λ x. total x (change e'.amount_due_paise e.amount_due_paise)) due
      ∙ total-change t'.amount_due_paise t.amount_due_paise e'.amount_due_paise
          e.amount_due_paise in
    elim (Bool-cases (e'.duplicate_of == "")) [
      | inr copy ↦
          rw (failed, fine, copied, copy, compare_money, total_one)
            (paid, due, left, ap (λ n. total n (pos 1)) deduped, asks)
      | inl own ↦ elim (Bool-cases (e'.duplicate_ask_of == "")) [
        | inr ask ↦
            rw (failed, fine, copied, own, asked, ask, compare_money, total_one)
              (more_paid, due, left, deduped, ap (λ n. total n (pos 1)) asks)
        | inl first ↦
            rw (failed, fine, copied, own, asked, first, compare_money, total_one)
              (more_paid, more_due, left, deduped, asks)
      ]
    ]

unread-Balances :
    (d : Delta) (t t' : SnapshotTotals) (e e' : SnapshotEntry)
    → (e'.err == "") ≡ false
    → Alike e e'
    → Balances d t t'
    → Balances (unmatched d) (total_one t e) (total_one t' e')
unfolding unmatched total_one
unread-Balances d t t' e e' bad (_, failed, _, _) (paid, due, left, deduped, asks) =
    rw (failed, bad, total_one) (paid, due, ap (λ n. total n (pos 1)) left, deduped, asks)

-- The delta and the totals after one more pair of entries.
diff_one-Balances :
    (idx : Dict SnapshotEntry) (d : Delta) (t t' : SnapshotTotals) (e e' : SnapshotEntry)
    → lookup (key_of e) idx ≡ some e
    → Alike e e'
    → Balances d t t'
    → Balances (diff_one idx d e') (total_one t e) (total_one t' e')
unfolding diff_one
diff_one-Balances idx d t t' e e' found alike h =
    let (same, failed, _, _) = alike in
    let there : lookup (key_of e') idx ≡ some e = ap (λ k. lookup k idx) (sym same) ∙ found in
    elim (Bool-cases (e'.err == "")) [
      | inr bad ↦ rw (there, failed, bad, diff_one) (unread-Balances d t t' e e' bad alike h)
      | inl fine ↦
          rw (there, failed, fine, diff_one)
            (compare_entries-Balances d e e' (total_one t e) (total_one t' e') (
              compare_money-Balances
                (record d { entries_compared = total d.entries_compared (pos 1) }) t t' e e' fine
                alike h))
    ]

diff_all-Balances :
    (idx : Dict SnapshotEntry) (es es' : List SnapshotEntry) (d : Delta) (t t' : SnapshotTotals)
    → All (λ e. lookup (key_of e) idx ≡ some e) es
    → Aligned es es'
    → Balances d t t'
    → Balances (diff_all idx d es') (total_all t es) (total_all t' es')
unfolding diff_all total_all
diff_all-Balances idx [] [] d t t' found aligned h = h
diff_all-Balances idx [] (e' ∷ es') d t t' found aligned h = absurd aligned
diff_all-Balances idx (e ∷ es) [] d t t' found aligned h = absurd aligned
diff_all-Balances idx (e ∷ es) (e' ∷ es') d t t' found aligned h =
    diff_all-Balances idx es es' (diff_one idx d e') (total_one t e) (total_one t' e') found.1
      aligned.1 (diff_one-Balances idx d t t' e e' found.0 aligned.0 h)

-- The totals before the first entry.
abbrev nothing_yet : List SkippedItem → SnapshotTotals
nothing_yet skipped = record {
  entries = pos 0;
  errors = pos 0;
  duplicates = pos 0;
  duplicate_asks = pos 0;
  skipped = pos (length skipped);
  amount_paise = pos 0;
  amount_paid_paise = pos 0;
  amount_due_paise = pos 0;
}

-- Two snapshots, of any gateways and at any instants, whose entries are of the same entities in
-- turn, each readable in both or in neither and marked alike in both: what Diff reports as recovered
-- is the wrapped difference of what their totals say is paid, and its change of what is due that of
-- what they say is due; and it leaves out as many entries as the later totals do, as failed, as
-- duplicates, and as duplicates of an ask.
pub diff-Balances :
    (api api' : PollApi) (sorted sorted' : List MintedLink → List MintedLink) (now now' : Instant)
    (items items' : List PollItem) (links links' : List MintedLink)
    → let before = poll_snapshot api sorted now items links in
      let after = poll_snapshot api' sorted' now' items' links' in
      Aligned before.entries after.entries → Balances (diff before after) before.totals after.totals
unfolding diff poll_snapshot wrap64 ◌-ℤ◌
diff-Balances api api' sorted sorted' now now' items items' links links' aligned =
    let board =
      poll_links-IsKeyed api (sorted links) _
        (poll_items-IsKeyed api items new_board new_board-IsKeyed) in
    diff_all-Balances _ _ _
      (record {
        from_taken_at = now;
        to_taken_at = now';
        recovered_paise = pos 0;
        amount_due_change = pos 0;
        entries_compared = pos 0;
        entries_unmatched = pos 0;
        entries_deduped = pos 0;
        entries_ask_deduped = pos 0;
        status_changes = [];
      })
      (nothing_yet (poll_snapshot api sorted now items links).skipped)
      (nothing_yet (poll_snapshot api' sorted' now' items' links').skipped)
      (index_found [] _ board.distinct) aligned (refl, refl, refl, refl, refl)
