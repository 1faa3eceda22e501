-- ===== src/Prelude/Texts.antt =====
-- Texts, which the program only compares whole.
use Prim.Native.String.{String}
use mathlib.Core.Path.{◌≡◌, sym, ◌∙◌}
use mathlib.Core.Logic.{◌≢◌, ◌⊎◌, inl, inr}
use mathlib.Core.Bool.{Bool, true, false, not, ◌&&◌, ◌||◌, false≢true}
use mathlib.Core.List.{List, [], ◌∷◌}
use native.Mathlib.Omega.{arith}
use text.Mathlib.Text.{◌==◌}
use text.Mathlib.TextEquality.{eq_iff}
use rzp_rebound.Prelude.Tests.{Bool-cases}

-- slices.Contains
abbrev pub contains : List String → String → Bool
contains [] a = false
contains (x ∷ xs) a = a == x || contains xs a

unfoldable pub str_discrete : Discrete String
str_discrete a b = elim (Bool-cases (a == b)) [
  | inl e ↦ yes ((eq_iff a b).0 e)
  | inr e ↦ no (λ p. false≢true (sym e ∙ (eq_iff a b).1 p))
]

pub ==_refl : (a : String) → (a == a) ≡ true
==_refl a = (eq_iff a a).1 (λ i. a)

pub ==-ne : (a b : String) → a ≢ b → (a == b) ≡ false
==-ne a b h = elim (Bool-cases (a == b)) [ inl e ↦ absurd (h ((eq_iff a b).0 e)) | inr e ↦ e ]

-- The text is one of those listed.
abbrev pub OneOf : String → List String → Type 0
OneOf a [] = ⊥
OneOf a (x ∷ xs) = (a ≡ x) ⊎ OneOf a xs

pub contains-OneOf : (xs : List String) (a : String) → contains xs a ≡ true → OneOf a xs
contains-OneOf [] a h = absurd (false≢true h)
contains-OneOf (x ∷ xs) a h = ground (arith, eq_iff a x, contains-OneOf xs a)

pub OneOf-contains : (xs : List String) (a : String) → OneOf a xs → contains xs a ≡ true
OneOf-contains [] a h = absurd h
OneOf-contains (x ∷ xs) a h = ground (arith, eq_iff a x, OneOf-contains xs a)

-- No text stands in both lists.
abbrev pub disjoint : List String → List String → Bool
disjoint [] ys = true
disjoint (x ∷ xs) ys = not (contains ys x) && disjoint xs ys

pub OneOf-disjoint :
    (xs ys : List String) (a : String) → disjoint xs ys ≡ true → OneOf a xs → ¬ OneOf a ys
OneOf-disjoint [] ys a d h k = h
OneOf-disjoint (x ∷ xs) ys a d (inl same) k =
    let there : contains ys x ≡ true = rw (← same) (OneOf-contains ys a k) in ground arith
OneOf-disjoint (x ∷ xs) ys a d (inr later) k = OneOf-disjoint xs ys a (ground arith) later k

-- Every text of the first list stands in the second.
abbrev pub subset : List String → List String → Bool
subset [] ys = true
subset (x ∷ xs) ys = contains ys x && subset xs ys

pub OneOf-subset :
    (xs ys : List String) (a : String) → subset xs ys ≡ true → OneOf a xs → OneOf a ys
OneOf-subset [] ys a d h = absurd h
OneOf-subset (x ∷ xs) ys a d (inl same) = contains-OneOf ys a (rw same (ground arith))
OneOf-subset (x ∷ xs) ys a d (inr later) = OneOf-subset xs ys a (ground arith) later

-- Two texts that the test tells apart differ.
pub ne-of_== : (a b : String) → (a == b) ≡ false → a ≢ b
ne-of_== a b h e = false≢true (sym h ∙ (eq_iff a b).1 e)
