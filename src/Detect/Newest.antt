-- ===== src/Detect/Newest.antt =====
-- Which failed payment a sighting is built from.
use rzp_rebound.Prelude.{
  ◌≡◌, refl, ap, ◌∙◌, ◌⊎◌, inl, inr, Bool, true, false, ◌==◌, ◌&&◌, Option, none, some, List, [],
  ◌∷◌, ◌++◌, All, ◌≤ℤ◌, ◌<ℤ◌, ltb_ℤ, arith, Bool-cases,
}
use rzp_rebound.Razorpay.{Payment, payment_status_failed}
use rzp_rebound.Detect.Sources.{newest_from, newest_failed}

abbrev pub is_failed : Payment → Bool
is_failed p = p.status == payment_status_failed

-- The failed ones are older than the payment.
abbrev pub Older : Payment → List Payment → Type 0
Older p ps = All (λ r. is_failed r ≡ true → r.created_at <ℤ p.created_at) ps

-- The failed ones are not newer than the payment.
abbrev pub NotNewer : Payment → List Payment → Type 0
NotNewer p ps = All (λ r. is_failed r ≡ true → r.created_at ≤ℤ p.created_at) ps

-- The payment is the newest failed one of the list, and the first of those as new as it.
pub record IsNewest (ps : List Payment) (p : Payment) : Type 0 where
  pub before : List Payment
  pub after : List Payment
  pub split : ps ≡ before ++ p ∷ after
  pub failed : is_failed p ≡ true
  pub first : Older p before
  pub newest : NotNewer p after

abbrev pub NewestOf : List Payment → Option Payment → Type 0
NewestOf ps none = All (λ r. is_failed r ≡ false) ps
NewestOf ps (some p) = IsNewest ps p

-- The search goes on from a best payment of what it has seen.
record EndsAt (b : Payment) (ps : List Payment) (c : Payment) : Type 0 where
  found : newest_from (some b) ps ≡ some c
  which : ((c ≡ b) × NotNewer b ps) ⊎ (IsNewest ps c × (b.created_at <ℤ c.created_at))

IsNewest-cons :
    (r c : Payment) (rs : List Payment)
    → (is_failed r ≡ true → r.created_at <ℤ c.created_at)
    → IsNewest rs c
    → IsNewest (r ∷ rs) c
IsNewest-cons r c rs older n = record {
  before = r ∷ n.before;
  after = n.after;
  split = ap (λ ps. r ∷ ps) n.split;
  failed = n.failed;
  first = (older, n.first);
  newest = n.newest;
}

IsNewest-head :
    (r : Payment) (rs : List Payment) → is_failed r ≡ true → NotNewer r rs → IsNewest (r ∷ rs) r
IsNewest-head r rs f n = record {
  before = [];
  after = rs;
  split = refl;
  failed = f;
  first = tt;
  newest = n;
}

stays :
    (b r c : Payment) (rs : List Payment)
    → (is_failed r ≡ true → r.created_at ≤ℤ b.created_at)
    → newest_from (some b) (r ∷ rs) ≡ newest_from (some b) rs
    → EndsAt b rs c
    → EndsAt b (r ∷ rs) c
stays b r c rs old same e = record { found = same ∙ e.found; which = go e.which }
  where
    go :
        ((c ≡ b) × NotNewer b rs) ⊎ (IsNewest rs c × (b.created_at <ℤ c.created_at))
        → ((c ≡ b) × NotNewer b (r ∷ rs)) ⊎ (IsNewest (r ∷ rs) c × (b.created_at <ℤ c.created_at))
    go (inl (is, n)) = inl (is, (old, n))
    go (inr (n, lt)) = inr (IsNewest-cons r c rs (λ f. omega (arith, old f, lt)) n, lt)

moves :
    (b r c : Payment) (rs : List Payment)
    → is_failed r ≡ true
    → b.created_at <ℤ r.created_at
    → newest_from (some b) (r ∷ rs) ≡ newest_from (some r) rs
    → EndsAt r rs c
    → EndsAt b (r ∷ rs) c
moves b r c rs f newer same e = record { found = same ∙ e.found; which = inr (go e.which) }
  where
    go :
        ((c ≡ r) × NotNewer r rs) ⊎ (IsNewest rs c × (r.created_at <ℤ c.created_at))
        → IsNewest (r ∷ rs) c × (b.created_at <ℤ c.created_at)
    go (inl (is, n)) = rw is (IsNewest-head r rs f n, newer)
    go (inr (n, lt)) = (IsNewest-cons r c rs (λ f. lt) n, omega (arith, newer, lt))

newest_from-EndsAt : (b : Payment) (ps : List Payment) → (c : Payment) × EndsAt b ps c
unfolding newest_from
newest_from-EndsAt b [] = (b, record { found = refl; which = inl (refl, tt) })
newest_from-EndsAt b (r ∷ rs) = elim (Bool-cases (is_failed r && ltb_ℤ b.created_at r.created_at)) [
  | inl newer ↦
      let (c, e) = newest_from-EndsAt r rs in
      let f : is_failed r ≡ true = ground arith in
      let lt : b.created_at <ℤ r.created_at = ground arith in
      let same : newest_from (some b) (r ∷ rs) ≡ newest_from (some r) rs = ground arith in
      (c, moves b r c rs f lt same e)
  | inr old ↦
      let (c, e) = newest_from-EndsAt b rs in
      let same : newest_from (some b) (r ∷ rs) ≡ newest_from (some b) rs = ground arith in
      (c, stays b r c rs (λ f. ground arith) same e)
]

NewestOf-cons :
    (r : Payment) (rs : List Payment) (o : Option Payment)
    → is_failed r ≡ false
    → NewestOf rs o
    → NewestOf (r ∷ rs) o
NewestOf-cons r rs none f h = (f, h)
NewestOf-cons r rs (some p) f h = IsNewest-cons r p rs (λ t. ground arith) h

EndsAt-NewestOf :
    (r c : Payment) (rs : List Payment) → is_failed r ≡ true → EndsAt r rs c → IsNewest (r ∷ rs) c
EndsAt-NewestOf r c rs f e = go e.which
  where
    go :
        ((c ≡ r) × NotNewer r rs) ⊎ (IsNewest rs c × (r.created_at <ℤ c.created_at))
        → IsNewest (r ∷ rs) c
    go (inl (is, n)) = rw is (IsNewest-head r rs f n)
    go (inr (n, lt)) = IsNewest-cons r c rs (λ f. lt) n

newest_from-NewestOf : (ps : List Payment) → NewestOf ps (newest_from none ps)
unfolding newest_from
newest_from-NewestOf [] = tt
newest_from-NewestOf (r ∷ rs) = elim (Bool-cases (is_failed r)) [
  | inl f ↦
      let (c, e) = newest_from-EndsAt r rs in
      let same : newest_from none (r ∷ rs) ≡ some c = rw (f, newest_from) e.found in
      rw same (EndsAt-NewestOf r c rs f e)
  | inr f ↦
      let same : newest_from none (r ∷ rs) ≡ newest_from none rs = rw (f, newest_from) refl in
      rw same (NewestOf-cons r rs (newest_from none rs) f (newest_from-NewestOf rs))
]

-- newestFailed answers the failed payment with the largest created_at, the first listed of those
-- that tie, and nothing exactly when no payment failed.
pub newest_failed-NewestOf : (ps : List Payment) → NewestOf ps (newest_failed ps)
unfolding newest_failed
newest_failed-NewestOf ps = newest_from-NewestOf ps
