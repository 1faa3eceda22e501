-- ===== src/RiskRun/Snapshot/Keyed.antt =====
-- The entries of a snapshot of internal/riskrun/poll.go: no two are of one entity.
use rzp_rebound.Prelude.{
  String, ◌≡◌, inl, inr, refl, sym, ◌∙◌, Bool, true, false, ◌||◌, ◌==◌, if◌then◌else◌, some, List,
  [], ◌∷◌, ◌++◌, map, All, Dict, lookup, insert, lookup_or, lookup-insert, OneOf, Bool-cases,
  ==_refl, eq_iff, arith,
}
use rzp_rebound.RiskRun.Snapshot.{
  SnapshotEntry, Board, new_board, entry_invoice, entry_order, fetch_invoice_entry, PollApi,
  PollItem, MintedLink, key_of, add, skip_item, poll_invoice, poll_item, poll_items, poll_link,
  poll_links,
}
use rzp_rebound.RiskRun.Snapshot.Moved.{index_entries}

abbrev pub keys : List SnapshotEntry → List String
keys = map key_of

-- No two entries have the same key.
abbrev pub Distinct : List SnapshotEntry → Type 0
Distinct [] = Unit
Distinct (e ∷ es) = (¬ OneOf (key_of e) (keys es)) × Distinct es

OneOf-append :
    (es : List SnapshotEntry) (e : SnapshotEntry) (k : String)
    → OneOf k (keys (es ++ e ∷ []))
    → ¬ (k ≡ key_of e)
    → OneOf k (keys es)
OneOf-append [] e k (inl same) apart = absurd (apart same)
OneOf-append [] e k (inr later) apart = absurd later
OneOf-append (x ∷ es) e k (inl same) apart = inl same
OneOf-append (x ∷ es) e k (inr later) apart = inr (OneOf-append es e k later apart)

Distinct-append :
    (es : List SnapshotEntry) (e : SnapshotEntry)
    → ¬ OneOf (key_of e) (keys es)
    → Distinct es
    → Distinct (es ++ e ∷ [])
Distinct-append [] e h d = (λ f. f, tt)
Distinct-append (x ∷ es) e h d = (
  λ f. d.0 (OneOf-append es e (key_of x) f (λ same. h (inl (sym same)))),
  Distinct-append es e (λ f. h (inr f)) d.1,
)

-- The board of a poll: its entries have their keys in `seen`, and no two have the same.
pub record IsKeyed (b : Board) : Type 0 where
  pub distinct : Distinct b.entries
  noted : (k : String) → OneOf k (keys b.entries) → lookup_or false k b.seen ≡ true

add-IsKeyed : (b : Board) (e : SnapshotEntry) → IsKeyed b → IsKeyed (add b e)
unfolding add lookup_or
add-IsKeyed b e h = elim (Bool-cases (e.id == "" || lookup_or false (key_of e) b.seen)) [
  | inl known ↦ rw (known, add) h
  | inr new ↦
      rw (new, add)
        (record {
          distinct =
              Distinct-append b.entries e (λ f. ground (arith, new, h.noted (key_of e) f))
                h.distinct;
          noted = λ k f.
              let after = lookup-insert (key_of e) k true b.seen in
              elim (Bool-cases (key_of e == k)) [
                | inl same ↦ ground (arith, after, same)
                | inr other ↦
                    let before = h.noted k (
                      OneOf-append b.entries e k f
                        (λ p. ground (arith, other, eq_iff (key_of e) k, p))) in
                    ground (arith, after, other, before)
              ];
        })
]

pub new_board-IsKeyed : IsKeyed new_board
new_board-IsKeyed = record { distinct = tt; noted = λ k f. absurd f }

if-IsKeyed : {x y : Board} (c : Bool) → IsKeyed x → IsKeyed y → IsKeyed (if c then x else y)
if-IsKeyed true hx hy = hx
if-IsKeyed false hx hy = hy

skip_item-IsKeyed :
    (b : Board) (item : PollItem) (reason : String) → IsKeyed b → IsKeyed (skip_item b item reason)
unfolding skip_item
skip_item-IsKeyed b item reason h = record { distinct = h.distinct; noted = h.noted }

poll_invoice-IsKeyed :
    (api : PollApi) (b : Board) (item : PollItem) → IsKeyed b → IsKeyed (poll_invoice api b item)
unfolding poll_invoice
poll_invoice-IsKeyed api b item h =
    let added = add-IsKeyed b (fetch_invoice_entry api item.id) h in
    if-IsKeyed _ added (add-IsKeyed _ _ added)

poll_item-IsKeyed :
    (api : PollApi) (b : Board) (item : PollItem) → IsKeyed b → IsKeyed (poll_item api b item)
unfolding poll_item
poll_item-IsKeyed api b item h = if-IsKeyed (item.id == "") (skip_item-IsKeyed b item _ h) (
    if-IsKeyed (item.kind == entry_invoice) (poll_invoice-IsKeyed api b item h)
      (if-IsKeyed (item.kind == entry_order) (add-IsKeyed b _ h) (skip_item-IsKeyed b item _ h)))

pub poll_items-IsKeyed :
    (api : PollApi) (items : List PollItem) (b : Board)
    → IsKeyed b
    → IsKeyed (poll_items api b items)
unfolding poll_items
poll_items-IsKeyed api [] b h = h
poll_items-IsKeyed api (item ∷ items) b h =
    poll_items-IsKeyed api items _ (poll_item-IsKeyed api b item h)

pub poll_links-IsKeyed :
    (api : PollApi) (links : List MintedLink) (b : Board)
    → IsKeyed b
    → IsKeyed (poll_links api b links)
unfolding poll_links poll_link
poll_links-IsKeyed api [] b h = h
poll_links-IsKeyed api (link ∷ links) b h = poll_links-IsKeyed api links _ (add-IsKeyed b _ h)

index_missing :
    (idx : Dict SnapshotEntry) (es : List SnapshotEntry) (k : String)
    → ¬ OneOf k (keys es)
    → lookup k (index_entries idx es) ≡ lookup k idx
unfolding index_entries
index_missing idx [] k h = refl
index_missing idx (e ∷ es) k h =
    index_missing (insert (key_of e) e idx) es k (λ f. h (inr f))
    ∙ lookup-insert (key_of e) k e idx
    ∙ ground (arith, eq_iff (key_of e) k, λ (p : k ≡ key_of e). h (inl p))

pub index_found :
    (idx : Dict SnapshotEntry) (es : List SnapshotEntry)
    → Distinct es
    → All (λ e. lookup (key_of e) (index_entries idx es) ≡ some e) es
unfolding index_entries
index_found idx [] d = tt
index_found idx (e ∷ es) d = (
  index_missing (insert (key_of e) e idx) es (key_of e) d.0
      ∙ lookup-insert (key_of e) (key_of e) e idx
      ∙ ground (arith, ==_refl (key_of e)),
  index_found (insert (key_of e) e idx) es d.1,
)
