-- ===== src/Cards.antt =====
-- internal/testcards/testcards.go: the table of test cards. The reading of the file, its JSON and
-- the caching of the default table are left out: `load` takes what the file decodes to.
use rzp_rebound.Prelude.{
  String, ◌⊎◌, inl, inr, Bool, ◌||◌, ◌==◌, not, if◌then◌else◌, Option, List, [], ◌∷◌, Dict, lookup,
  insert, is_some,
}

abbrev pub pending_success_card : String
pending_success_card = "pending_success_card"

abbrev pub default_path : String
default_path = "testdata/magic_cards.json"

pub record Card : Type 0 where
  pub number : String
  pub error_code : String
  pub verified : Bool
  pub documented_date : String

pub record Table : Type 0 where
  pub by_number : Dict Card
  pub by_error_code : Dict Card
  pub success : String

-- A row of success_cards is its number.
pub record CardFile : Type 0 where
  pub failure_cards : List Card
  pub success_cards : List String

pub data LoadError : Type 0 where
  no_failure_cards : LoadError
  empty_card : LoadError
  listed_twice : String → LoadError

abbrev empty_table : Table
empty_table = record { by_number = []; by_error_code = []; success = pending_success_card }

-- What one turn of the loop of Load does with a row that it takes.
unfoldable pub add_card : Table → Card → Table
add_card t c = record t {
  by_number = insert c.number c t.by_number;
  by_error_code =
      if is_some (lookup c.error_code t.by_error_code)
      then t.by_error_code
      else insert c.error_code c t.by_error_code;
}

-- The loop of Load from one of its rows on.
unfoldable pub load_from : Table → List Card → LoadError ⊎ Table
load_from t [] = inr t
load_from t (c ∷ cs) =
    let rest = load_from (add_card t c) cs in
    if c.number == "" || c.error_code == ""
    then inl empty_card
    else if is_some (lookup c.number t.by_number)
    then inl (listed_twice c.number)
    else rest

unfoldable pub with_success : List String → Table → Table
with_success [] t = t
with_success (number ∷ _) t = if not (number == "") then record t { success = number } else t

unfoldable pub load_rows : CardFile → LoadError ⊎ Table
load_rows f = elim (load_from empty_table f.failure_cards) [
  | inl e ↦ inl e
  | inr t ↦ inr (with_success f.success_cards t)
]

unfoldable pub load : CardFile → LoadError ⊎ Table
unfolding load_rows
load f = elim f.failure_cards [ [] ↦ inl no_failure_cards | (c ∷ cs) ↦ load_rows f ]

unfoldable pub failure_for : Table → String → Option Card
failure_for t number = lookup number t.by_number

unfoldable pub card_for_error_code : Table → String → Option Card
card_for_error_code t code = lookup code t.by_error_code

unfoldable pub success_card : Table → String
success_card t = t.success
