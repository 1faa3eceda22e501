-- ===== src/Classify.antt =====
-- internal/classify/classify.go: what a payment failure means. A Go map is a Dict, a Class is one
-- of the six constants (no other int is represented), and a Source is the text it is. The JSON
-- methods only wrap `string` and `parse_class` and are left out, as are the network decline
-- codes, which no payload reaches, and the listings for the batch seeder.
mod Tables
pub mod Agreement
pub mod Outcomes
mod Examples
pub use Tables.{
  Class, unclassified, transient_retry_eligible, retry_eligible, reauth_required,
  new_instrument_required, never_retry,
}
unfoldable pub use Tables.{
  eq_class, card_reasons, upi_reasons, test_mode_card_table_reasons, reason_tables, error_classes,
  class_names, reason_payment_risk_check_failed,
}
use rzp_rebound.Prelude.{
  String, Bool, true, false, not, ◌&&◌, ◌||◌, ◌==◌, Option, none, some, List, [], ◌∷◌, contains,
  Dict, lookup, lookup_or, if◌then◌else◌,
}

-- Method is a text; these two have a documented table.
abbrev pub method_any : String
method_any = ""

abbrev pub method_card : String
method_card = "card"

abbrev pub method_upi : String
method_upi = "upi"

abbrev card_sources : List String
card_sources = "business" ∷ "customer" ∷ "gateway" ∷ "internal" ∷ "issuer_bank" ∷ []

abbrev upi_sources : List String
upi_sources =
    "beneficiary_bank" ∷ "business" ∷ "customer" ∷ "customer_psp" ∷ "gateway" ∷ "internal"
    ∷ "issuer_bank" ∷ "network" ∷ []

unfoldable pub documented_sources : String → List String
documented_sources m = if m == method_card then card_sources else upi_sources

-- s.DocumentedFor(m)
unfoldable pub documented_for : String → String → Bool
unfolding documented_sources
documented_for s m = contains (documented_sources m) s

-- `none` is the false of the pair that ParseSource returns.
unfoldable pub parse_source : String → Option String
unfolding documented_for
parse_source name = if documented_for name method_any then some name else none

-- `none` is the nil map.
unfoldable pub documented_reasons : String → Option (Dict Class)
documented_reasons m =
    if m == method_card
    then some card_reasons
    else if m == method_upi
    then some upi_reasons
    else none

-- The loop of ClassifyAcross from one of its tables on.
across_from : Class → List (Dict Class) → String → Class
across_from found [] reason = found
across_from found (table ∷ rest) reason = elim (lookup reason table) [
  | none ↦ across_from found rest reason
  | some class ↦
      if not (eq_class found unclassified) && not (eq_class found class)
      then unclassified
      else across_from class rest reason
]

unfoldable pub classify_across : List (Dict Class) → String → Class
unfolding across_from
classify_across tables reason = across_from unclassified tables reason

pub record Failure : Type 0 where
  pub code : String
  pub reason : String
  pub source : String
  pub step : String
  pub method : String

-- The lookup in the documented table of a method, before the merged one.
unfoldable pub by_method : Option (Dict Class) → String → Class
by_method none reason = classify_across reason_tables reason
by_method (some table) reason = elim (lookup reason table) [
  | none ↦ classify_across reason_tables reason
  | some class ↦ class
]

unfoldable pub classify : Failure → Class
classify f =
    if f.reason == ""
    then lookup_or unclassified f.code error_classes
    else by_method (documented_reasons f.method) f.reason

-- classNames[c], empty for a missing key
name_from : List (Class × String) → Class → String
name_from [] c = ""
name_from ((k, n) ∷ rest) c = if eq_class k c then n else name_from rest c

-- c.String()
unfoldable pub string : Class → String
unfolding name_from class_names
string c = name_from class_names c

unfoldable pub is_retry_eligible : Class → Bool
is_retry_eligible c = eq_class c transient_retry_eligible || eq_class c retry_eligible

-- The loop of ParseClass over the map of names; `none` is the false of the pair it returns.
parse_from : List (Class × String) → String → Option Class
parse_from [] name = none
parse_from ((c, n) ∷ rest) name = if n == name then some c else parse_from rest name

unfoldable pub parse_class : String → Option Class
unfolding parse_from class_names
parse_class name = parse_from class_names name
