-- ===== src/Detect/Collapse.antt =====
-- The collapse of the sightings that are one debt.
use rzp_rebound.Prelude.{
  String, ◌≡◌, ◌==◌, ==_refl, eq_iff, Option, none, some, List, [], ◌∷◌, if◌then◌else◌, contains,
  Sublist, done, skip, keep, arith, Bool-cases, inl, inr,
}
use rzp_rebound.RiskItem.{RiskItem, dedupe_key}
use rzp_rebound.Detect.{collapse_from, collapse}

-- The first item with the key.
abbrev pub first_sighting : String → List RiskItem → Option RiskItem
first_sighting key [] = none
first_sighting key (item ∷ items) =
    if dedupe_key item == key then some item else first_sighting key items

-- No two items have one key.
abbrev pub DistinctKeys : List RiskItem → Type 0
DistinctKeys [] = Unit
DistinctKeys (item ∷ items) = (first_sighting (dedupe_key item) items ≡ none) × DistinctKeys items

pub record Collapsed (items out : List RiskItem) : Type 0 where
  pub first_speaks : (key : String) → first_sighting key out ≡ first_sighting key items
  pub distinct : DistinctKeys out
  pub in_order : Sublist out items

first_sighting-collapse_from :
    (key : String) (seen : List String) (items : List RiskItem)
    → first_sighting key (collapse_from seen items)
      ≡ (if contains seen key then none else first_sighting key items)
unfolding collapse_from
first_sighting-collapse_from key seen [] = ground arith
first_sighting-collapse_from key seen (item ∷ items) =
    let k = dedupe_key item in
    ground (
      arith,
      eq_iff k key,
      eq_iff key k,
      first_sighting-collapse_from key seen items,
      first_sighting-collapse_from key (k ∷ seen) items,
    )

collapse_from-DistinctKeys :
    (seen : List String) (items : List RiskItem) → DistinctKeys (collapse_from seen items)
unfolding collapse_from
collapse_from-DistinctKeys seen [] = tt
collapse_from-DistinctKeys seen (item ∷ items) =
    elim (Bool-cases (contains seen (dedupe_key item))) [
      | inl met ↦ rw met (collapse_from-DistinctKeys seen items)
      | inr new ↦
          let k = dedupe_key item in
          let gone : first_sighting k (collapse_from (k ∷ seen) items) ≡ none =
            ground (arith, ==_refl k, first_sighting-collapse_from k (k ∷ seen) items) in
          rw new (gone, collapse_from-DistinctKeys (k ∷ seen) items)
    ]

collapse_from-Sublist :
    (seen : List String) (items : List RiskItem) → Sublist (collapse_from seen items) items
unfolding collapse_from
collapse_from-Sublist seen [] = done
collapse_from-Sublist seen (item ∷ items) = elim (Bool-cases (contains seen (dedupe_key item))) [
  | inl met ↦ rw met (skip (collapse_from-Sublist seen items))
  | inr new ↦ rw new (keep (collapse_from-Sublist (dedupe_key item ∷ seen) items))
]

-- Collapse keeps, for every key, the first sighting with that key and no other, in the order of
-- the sightings: no debt is lost, and none is chased twice.
pub collapse-Collapsed : (items : List RiskItem) → Collapsed items (collapse items)
unfolding collapse
collapse-Collapsed items = record {
  first_speaks = λ key. first_sighting-collapse_from key [] items;
  distinct = collapse_from-DistinctKeys [] items;
  in_order = collapse_from-Sublist [] items;
}
