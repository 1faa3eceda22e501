-- ===== src/RiskRun/Manifest.antt =====
-- internal/riskrun/facts.go: what the manifest and the promise ledger say of an item. A manifest is
-- the list of its items, each given by the fields that are read here.
use rzp_rebound.Prelude.{
  String, Bool, false, not, ◌==◌, if◌then◌else◌, Option, none, some, List, [], ◌∷◌, Dict, lookup,
  insert, ℤ, pos, leb_ℤ,
}
use rzp_rebound.Time.{Instant, zero_time}
use rzp_rebound.RiskItem.{RiskItem}
use rzp_rebound.Promise
use rzp_rebound.Promise.{active_hold, hold_until}
use rzp_rebound.Policy.Adapter.{Facts}

-- seed.Item, with the disputed flag of its flags
pub record SeedItem : Type 0 where
  pub id : String
  pub order_id : String
  pub status : String
  pub disputed : Bool
  pub simulated_at_risk_since : ℤ

abbrev pub ManifestIndex : Type 0
ManifestIndex = Dict SeedItem

index_one : ManifestIndex → SeedItem → ManifestIndex
index_one idx item =
    let own = if not (item.id == "") then insert item.id item idx else idx in
    if not (item.order_id == "") then insert item.order_id item own else own

-- The loop of newManifestIndex.
index_from : ManifestIndex → List SeedItem → ManifestIndex
index_from idx [] = idx
index_from idx (item ∷ items) = index_from (index_one idx item) items

unfoldable pub new_manifest_index : List SeedItem → ManifestIndex
unfolding index_from index_one
new_manifest_index items = index_from [] items

unfoldable pub lookup_item : ManifestIndex → RiskItem → Option SeedItem
lookup_item idx item = elim (lookup item.source_id idx) [
  | some found ↦ some found
  | none ↦ if not (item.root_order_id == "") then lookup item.root_order_id idx else none
]

unfoldable pub facts_for : ManifestIndex → Promise.Store → RiskItem → ℤ → Instant → Facts
facts_for idx promises item touch_no now = record {
  touch_no = touch_no;
  promise_hold_until = elim (active_hold promises item.id now) [
    | none ↦ zero_time
    | some hold ↦ hold_until hold
  ];
  disputed = elim (lookup_item idx item) [ none ↦ false | some seeded ↦ seeded.disputed ];
  source_status = elim (lookup_item idx item) [ none ↦ "" | some seeded ↦ seeded.status ];
}

unfoldable pub simulated_at_risk_since : ManifestIndex → RiskItem → Option ℤ
simulated_at_risk_since idx item = elim (lookup_item idx item) [
  | none ↦ none
  | some seeded ↦
      if leb_ℤ seeded.simulated_at_risk_since (pos 0)
      then none
      else some seeded.simulated_at_risk_since
]
