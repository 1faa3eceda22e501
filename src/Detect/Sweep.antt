-- ===== src/Detect/Sweep.antt =====
-- What a sweep returns of a list that its endpoint serves in pages.
use rzp_rebound.Prelude.{
  ℕ, zero, suc, ◌+◌, ◌-◌, ◌*◌, ◌^◌, ◌≤◌, ◌<◌, String, ◌≡◌, refl, sym, ◌∙◌, ◌⊎◌, none, some, List,
  [], ◌++◌, inl, inr, take, drop, take_add, drop-drop, drop_short, take_nil, length,
  length-take_full, length-drop, append-nil, pos, pos_part, ltb, if◌then◌else◌, arith, Bool-cases,
  wrap64,
}
use native.Mathlib.Nat.{suc-mul, add-mul}
use rzp_rebound.Razorpay.{Lister, ListOptions}
use rzp_rebound.Detect.{Config, page_size, max_pages, page_options, sweep_from, sweep}

abbrev pub size : Config → ℕ
size cfg = pos_part (page_size cfg)

abbrev pub limit : Config → ℕ
limit cfg = pos_part (max_pages cfg)

-- The endpoint serves `all` under the options: so many records after so many.
abbrev pub Serves : {A : Type 0} → List A → Lister A → ListOptions → Type 0
Serves all page o = page o ≡ inr (take (pos_part o.count) (drop (pos_part o.skip) all))

page_options_skip :
    (cfg : Config) (read : ℕ)
    → read * size cfg < 2 ^ 63
    → ((page_options cfg read).skip ≡ pos (read * size cfg))
      × ((page_options cfg read).count ≡ page_size cfg)
unfolding page_options wrap64
page_options_skip cfg read h = ground arith

size_positive : (cfg : Config) → 0 < size cfg
unfolding page_size
size_positive cfg = ground arith

module _ {A : Type 0} (cfg : Config) (page : Lister A) (all : List A) where
  -- The page numbered `read`.
  slice : ℕ → List A
  slice read = take (size cfg) (drop (read * size cfg) all)

  sweep_from-step :
      (left read : ℕ)
      → page (page_options cfg read) ≡ inr (slice read)
      → sweep_from cfg page (suc left) read ≡ (
          if ltb (length (slice read)) (size cfg) then (slice read, none) else (
            slice read ++ (sweep_from cfg page left (suc read)).0,
            (sweep_from cfg page left (suc read)).1,
          ))
  unfolding sweep_from
  sweep_from-step left read e = rw (e, sweep_from) refl

  Serves-slice :
      (read : ℕ)
      → read * size cfg < 2 ^ 63
      → Serves all page (page_options cfg read)
      → page (page_options cfg read) ≡ inr (slice read)
  unfolding slice
  Serves-slice read h e =
      let (skip, count) = page_options_skip cfg read h in e ∙ rw (skip, count) refl

  -- One page more, in offsets.
  offsets :
      (left read : ℕ)
      → (read + suc left) * size cfg < 2 ^ 63
      → (read * size cfg < 2 ^ 63)
        × ((suc read + left) * size cfg < 2 ^ 63)
        × (suc read * size cfg ≡ read * size cfg + size cfg)
        × (suc left * size cfg ≡ size cfg + left * size cfg)
  offsets left read h =
      let n = size cfg in
      let one = suc-mul read n in
      let two = suc-mul left n in
      let three = add-mul read (suc left) n in
      let four = add-mul (suc read) left n in
      (
        omega (arith, two, three),
        omega (arith, one, two, three, four),
        omega (arith, one),
        omega (arith, two),
      )

  -- The page numbered `read`, with what later pages give of the next `more` records.
  Page : ℕ → ℕ → Type 0
  Page read more =
      ((length (slice read) < size cfg)
        × (slice read ≡ take (size cfg + more) (drop (read * size cfg) all)))
      ⊎ ((size cfg ≤ length (slice read))
          × (slice read ++ take more (drop (read * size cfg + size cfg) all)
              ≡ take (size cfg + more) (drop (read * size cfg) all)))

  slice-Page : (read more : ℕ) → Page read more
  unfolding Page slice
  slice-Page read more =
      let rest = drop (read * size cfg) all in
      let whole = take_add (size cfg) more rest in
      let onward = drop-drop (read * size cfg) (size cfg) all in
      elim (Bool-cases (ltb (length (take (size cfg) rest)) (size cfg))) [
        | inl short ↦
            let ended : length (take (size cfg) rest) < size cfg = ground arith in
            inl (
              ended,
              sym (
                  whole
                  ∙ rw (drop_short (size cfg) rest ended, take_nil more)
                      (append-nil (take (size cfg) rest))),
            )
        | inr full ↦ inr (ground arith, sym (rw onward at whole))
      ]

  -- A sweep of `left` pages from the page numbered `read` on.
  sweep_from-served :
      (left read : ℕ)
      → (read + left) * size cfg < 2 ^ 63
      → ((r : ℕ) → Serves all page (page_options cfg r))
      → sweep_from cfg page left read ≡ (take (left * size cfg) (drop (read * size cfg) all), none)
  unfolding sweep_from Page
  sweep_from-served zero read h serves =
      let none_left : 0 * size cfg ≡ 0 = omega arith in rw none_left refl
  sweep_from-served (suc left) read h serves =
      let (lt, next, skip, total) = offsets left read h in
      let step = sweep_from-step left read (Serves-slice read lt (serves read)) in
      let rest = sweep_from-served left (suc read) next serves in
      let page_read = slice-Page read (left * size cfg) in
      ground (arith, step, rest, skip, total, page_read)

  full_slice : (read : ℕ) → suc read * size cfg ≤ length all → length (slice read) ≡ size cfg
  unfolding slice
  full_slice read h =
      length-take_full (size cfg) (drop (read * size cfg) all)
        (omega (arith, suc-mul read (size cfg), length-drop (read * size cfg) all))

  sweep_from_error :
      (err : String) (left read : ℕ)
      → page (page_options cfg read) ≡ inl err
      → sweep_from cfg page (suc left) read ≡ ([], some err)
  unfolding sweep_from
  sweep_from_error err left read e = rw (e, sweep_from) refl

  sweep_from_broken :
      (err : String) (before extra read : ℕ)
      → (read + before) * size cfg < 2 ^ 63
      → (read + before) * size cfg ≤ length all
      → ((r : ℕ) → r < read + before → Serves all page (page_options cfg r))
      → page (page_options cfg (read + before)) ≡ inl err
      → sweep_from cfg page (before + suc extra) read
        ≡ (take (before * size cfg) (drop (read * size cfg) all), some err)
  unfolding Page
  sweep_from_broken err zero extra read h full serves broken =
      let here : page (page_options cfg read) ≡ inl err =
        let same : read + 0 ≡ read = omega arith in rw same at broken in
      let left : 0 + suc extra ≡ suc extra = omega arith in
      let nothing : 0 * size cfg ≡ 0 = omega arith in
      rw (left, nothing) (sweep_from_error err extra read here)
  sweep_from_broken err (suc before) extra read h full serves broken =
      let n = size cfg in
      let left : suc before + suc extra ≡ suc (before + suc extra) = omega arith in
      let later : read + suc before ≡ suc read + before = omega arith in
      let room : (suc read + before) * n ≤ length all = rw later at full in
      let bound : (suc read + before) * n < 2 ^ 63 = rw later at h in
      let broken_later : page (page_options cfg (suc read + before)) ≡ inl err =
        rw later at broken in
      let total : suc before * n ≡ n + before * n = omega (arith, suc-mul before n) in
      let skip : suc read * n ≡ read * n + n = omega (arith, suc-mul read n) in
      let whole = full_slice read (omega (arith, room, add-mul (suc read) before n)) in
      let lt : read * n < 2 ^ 63 = omega (arith, bound, skip, add-mul (suc read) before n) in
      let served = serves read (omega arith) in
      let step = sweep_from-step (before + suc extra) read (Serves-slice read lt served) in
      let rest =
        sweep_from_broken err before extra (suc read) bound room
          (λ r lt. serves r (omega (arith, lt, later))) broken_later in
      let page_read = slice-Page read (before * n) in
      rw left (step ∙ ground (arith, rest, skip, total, whole, page_read))

-- An endpoint that serves a list, page after page, is read up to the limit of pages: the sweep
-- returns that many of its first records, which are all of them unless the limit cuts it short,
-- and no error. The offsets of the pages are taken to fit an int64.
pub sweep_served :
    {A : Type 0} (cfg : Config) (page : Lister A) (all : List A)
    → limit cfg * size cfg < 2 ^ 63
    → ((r : ℕ) → Serves all page (page_options cfg r))
    → sweep cfg page ≡ (take (limit cfg * size cfg) all, none)
unfolding sweep
sweep_served cfg page all h serves =
    let none_skipped : 0 * size cfg ≡ 0 = omega arith in
    let start : 0 + limit cfg ≡ limit cfg = omega arith in
    rw none_skipped at (sweep_from-served cfg page all (limit cfg) 0 (rw start h) serves)

-- An endpoint that serves the list up to a page and fails there, all the pages before being full:
-- the sweep returns the records of those pages together with the error. The page stands below the
-- limit, and its offset is taken to fit an int64.
pub sweep_broken :
    {A : Type 0} (cfg : Config) (page : Lister A) (all : List A) (k : ℕ) (err : String)
    → k < limit cfg
    → k * size cfg < 2 ^ 63
    → k * size cfg ≤ length all
    → ((r : ℕ) → r < k → Serves all page (page_options cfg r))
    → page (page_options cfg k) ≡ inl err
    → sweep cfg page ≡ (take (k * size cfg) all, some err)
unfolding sweep
sweep_broken cfg page all k err below h full serves broken =
    let none_skipped : 0 * size cfg ≡ 0 = omega arith in
    let start : 0 + k ≡ k = omega arith in
    let pages : limit cfg ≡ k + suc (limit cfg - k - 1) = omega arith in
    let found =
      sweep_from_broken cfg page all err k (limit cfg - k - 1) 0 (rw start h) (rw start full)
        (λ r lt. serves r (omega (arith, lt))) (rw start broken) in
    rw pages (rw none_skipped at found)
