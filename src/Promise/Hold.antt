-- ===== src/Promise/Hold.antt =====
-- Which promise holds now, and which one was broken.
use rzp_rebound.Prelude.{
  String, ◌≡◌, refl, sym, ◌∙◌, ◌⊎◌, inl, inr, Bool, true, false, false≢true, Option, none, some,
  List, [], ◌∷◌, All, ◌≤ℤ◌, arith, is_some, Bool-cases, ◌&&◌, if◌then◌else◌, ltb_ℤ,
}
use rzp_rebound.Time.{Instant, unix}
use rzp_rebound.Promise.{
  Record, Store, active_at, breached_at, records, latest, latest_from, active_hold, breached,
}

abbrev pub Logged : Record → List Record → Type 0
Logged r [] = ⊥
Logged r (x ∷ xs) = (r ≡ x) ⊎ Logged r xs

-- The wanted record of the list that ends latest, or `none` if no record is wanted.
abbrev pub IsLatest : (Record → Bool) → List Record → Option Record → Type 0
IsLatest want rs none = All (λ r. want r ≡ false) rs
IsLatest want rs (some b) =
    Logged b rs
    × (want b ≡ true)
    × All (λ r. want r ≡ true → r.hold_until_unix ≤ℤ b.hold_until_unix) rs

module _ (want : Record → Bool) where
  -- The best record after one more.
  better : Record → Record → Record
  better b r = if want r && ltb_ℤ b.hold_until_unix r.hold_until_unix then r else b

  record IsBetter (b r c : Record) : Type 0 where
    one : (c ≡ b) ⊎ (c ≡ r)
    wanted : want c ≡ true
    after_best : b.hold_until_unix ≤ℤ c.hold_until_unix
    after_new : want r ≡ true → r.hold_until_unix ≤ℤ c.hold_until_unix

  better-IsBetter : (b r : Record) → want b ≡ true → IsBetter b r (better b r)
  unfolding better
  better-IsBetter b r w = elim (Bool-cases (want r && ltb_ℤ b.hold_until_unix r.hold_until_unix)) [
    | inl e ↦ rw e (record {
      one = inr refl;
      wanted = ground arith;
      after_best = ground arith;
      after_new = λ h. omega arith;
    })
    | inr e ↦ rw e (record {
      one = inl refl;
      wanted = w;
      after_best = omega arith;
      after_new = λ h. ground arith;
    })
  ]

  latest_from-step :
      (b r : Record) (rs : List Record)
      → latest_from want (some b) (r ∷ rs) ≡ latest_from want (some (better b r)) rs
  unfolding latest_from better
  latest_from-step b r rs = ground arith

  -- The search goes on from a best record of what it has seen.
  record EndsAt (b : Record) (rs : List Record) (c : Record) : Type 0 where
    found : latest_from want (some b) rs ≡ some c
    one : (c ≡ b) ⊎ Logged c rs
    wanted : want c ≡ true
    after_best : b.hold_until_unix ≤ℤ c.hold_until_unix
    after_all : All (λ r. want r ≡ true → r.hold_until_unix ≤ℤ c.hold_until_unix) rs

  latest_from-EndsAt :
      (b : Record) (rs : List Record) → want b ≡ true → (c : Record) × EndsAt b rs c
  latest_from-EndsAt b [] w = (
    b,
    record {
      found = unfold latest_from in refl;
      one = inl refl;
      wanted = w;
      after_best = omega arith;
      after_all = tt;
    },
  )
  latest_from-EndsAt b (r ∷ rs) w =
      let n = better-IsBetter b r w in
      let (c, e) = latest_from-EndsAt (better b r) rs n.wanted in
      (
        c,
        record {
          found = latest_from-step b r rs ∙ e.found;
          one = ends_one c e.one n.one;
          wanted = e.wanted;
          after_best = omega (arith, n.after_best, e.after_best);
          after_all = (λ h. omega (arith, n.after_new h, e.after_best), e.after_all);
        },
      )
    where
      ends_one :
          (c : Record)
          → (c ≡ better b r) ⊎ Logged c rs
          → (better b r ≡ b) ⊎ (better b r ≡ r)
          → (c ≡ b) ⊎ ((c ≡ r) ⊎ Logged c rs)
      ends_one c (inl same) (inl old) = inl (same ∙ old)
      ends_one c (inl same) (inr new) = inr (inl (same ∙ new))
      ends_one c (inr later) known = inr (inr later)

  IsLatest-cons :
      (r : Record) (rs : List Record) (o : Option Record)
      → want r ≡ false
      → IsLatest want rs o
      → IsLatest want (r ∷ rs) o
  IsLatest-cons r rs none w h = (w, h)
  IsLatest-cons r rs (some b) w (there, wanted, after) =
      (inr there, wanted, (λ h. absurd (false≢true (sym w ∙ h)), after))

  latest_from-none : (rs : List Record) → IsLatest want rs (latest_from want none rs)
  latest_from-none [] = unfold latest_from in tt
  latest_from-none (r ∷ rs) = elim (Bool-cases (want r)) [
    | inl w ↦
        let (c, e) = latest_from-EndsAt r rs w in
        let whole : latest_from want none (r ∷ rs) ≡ some c = unfold latest_from in rw w e.found in
        rw whole (e.one, e.wanted, (λ h. e.after_best, e.after_all))
    | inr w ↦
        let whole : latest_from want none (r ∷ rs) ≡ latest_from want none rs =
          unfold latest_from in rw w in
        rw whole (IsLatest-cons r rs (latest_from want none rs) w (latest_from-none rs))
  ]

-- ActiveHold answers the logged promise of the item that covers now and ends latest, and nothing
-- exactly when no logged promise of the item covers now.
pub active_hold-IsLatest :
    (s : Store) (id : String) (now : Instant)
    → IsLatest (active_at (unix now)) (records s id) (active_hold s id now)
unfolding active_hold latest
active_hold-IsLatest s id now = latest_from-none (active_at (unix now)) (records s id)

-- A live hold beats an expired one.
abbrev pub BrokenPromise : Store → String → Instant → Option Record → Type 0
BrokenPromise s id now answer =
    ((is_some (active_hold s id now) ≡ true) × (answer ≡ none))
    ⊎ (All (λ r. active_at (unix now) r ≡ false) (records s id)
        × IsLatest (breached_at (unix now)) (records s id) answer)

-- Breached answers nothing while a promise of the item covers now; when none does, it answers the
-- expired promise of the item that ended latest, and nothing exactly when none has expired.
pub breached-BrokenPromise :
    (s : Store) (id : String) (now : Instant) → BrokenPromise s id now (breached s id now)
unfolding breached
breached-BrokenPromise s id now = go (active_hold s id now) refl
  where
    go : (o : Option Record) → active_hold s id now ≡ o → BrokenPromise s id now (breached s id now)
    go (some r) e = inl (rw e, rw (e, breached))
    go none e = inr (
      rw e at (active_hold-IsLatest s id now),
      rw (e, breached) (unfold latest in latest_from-none (breached_at (unix now)) (records s id)),
    )
