-- ===== src/Classify/Agreement.antt =====
-- What the lookup across several tables answers.
use rzp_rebound.Prelude.{
  String, ◌≡◌, ◌≢◌, refl, sym, ap, ◌∙◌, ◌↔◌, ◌⊎◌, inl, inr, true, none, some, List, [], ◌∷◌, Dict,
  lookup, All, arith, Option-cases,
}
use rzp_rebound.Classify.{Class, unclassified, eq_class, across_from, classify_across}

-- The table holds no class for the reason, or this one.
abbrev pub Holds : Class → String → Dict Class → Type 0
Holds c reason table = (lookup reason table ≡ none) ⊎ (lookup reason table ≡ some c)

-- Some table holds the reason.
abbrev pub Found : String → List (Dict Class) → Type 0
Found reason [] = ⊥
Found reason (table ∷ rest) = (lookup reason table ≢ none) ⊎ Found reason rest

-- A table that maps the reason to a class maps it to one that is not the fail-closed default.
abbrev pub Classifies : String → Dict Class → Type 0
Classifies reason table = lookup reason table ≢ some unclassified

pub eq_class→eq : (c d : Class) → eq_class c d ≡ true → c ≡ d
eq_class→eq c d h = ground arith

pub eq_class_refl : (c : Class) → eq_class c c ≡ true
eq_class_refl c = ground arith

some≢none : {c : Class} → some c ≢ none
some≢none e = cc

across_from-Holds :
    (found c : Class) (tables : List (Dict Class)) (reason : String)
    → All (Classifies reason) tables
    → found ≢ unclassified
    → c ≢ unclassified
    → across_from found tables reason ≡ c
    → (found ≡ c) × All (Holds c reason) tables
unfolding across_from
across_from-Holds found c [] reason known hf hc e = (e, tt)
across_from-Holds found c (table ∷ rest) reason known hf hc e =
    ground (arith, across_from-Holds found c rest reason known.1 hf hc)

Holds-across_from :
    (c : Class) (tables : List (Dict Class)) (reason : String)
    → All (Holds c reason) tables
    → across_from c tables reason ≡ c
unfolding across_from
Holds-across_from c [] reason h = refl
Holds-across_from c (table ∷ rest) reason h =
    ground (arith, eq_class_refl c, Holds-across_from c rest reason h.1)

across-Holds :
    (c : Class) (tables : List (Dict Class)) (reason : String)
    → All (Classifies reason) tables
    → c ≢ unclassified
    → across_from unclassified tables reason ≡ c
    → Found reason tables × All (Holds c reason) tables
unfolding across_from
across-Holds c [] reason known hc e = absurd (hc (sym e))
across-Holds c (table ∷ rest) reason known hc e = elim (Option-cases (lookup reason table)) [
  | inl absent ↦
      let later : across_from unclassified rest reason ≡ c = ground arith in
      let (found, held) = across-Holds c rest reason known.1 hc later in
      (inr found, (inl absent, held))
  | inr (class, present) ↦
      let fresh : class ≢ unclassified = λ p. known.0 (present ∙ ap some p) in
      let later : across_from class rest reason ≡ c = ground arith in
      let (same, held) = across_from-Holds class c rest reason known.1 fresh hc later in
      (inl (λ p. some≢none (sym present ∙ p)), (inr (present ∙ ap some same), held))
]

Holds-across :
    (c : Class) (tables : List (Dict Class)) (reason : String)
    → Found reason tables
    → All (Holds c reason) tables
    → across_from unclassified tables reason ≡ c
unfolding across_from
Holds-across c [] reason found h = absurd found
Holds-across c (table ∷ rest) reason found h =
    ground (arith, Holds-across_from c rest reason h.1, Holds-across c rest reason)

-- Over any tables that map the reason to no unclassified: a lookup across them answers a class
-- other than the fail-closed one exactly when some table holds the reason, and every table that
-- holds it maps it to that class. So a disagreement, and a reason in no table, is unclassified.
pub classify_across_iff :
    (tables : List (Dict Class)) (reason : String) (c : Class)
    → All (Classifies reason) tables
    → c ≢ unclassified
    → (classify_across tables reason ≡ c) ↔ (Found reason tables × All (Holds c reason) tables)
unfolding classify_across
classify_across_iff tables reason c known hc =
    (across-Holds c tables reason known hc, λ h. Holds-across c tables reason h.0 h.1)
