-- ===== src/Quiet/Band.antt =====
-- The allowed-contact band as an interval on the circle of the day's minutes.
use rzp_rebound.Prelude.{
  ℕ, ◌+◌, ◌-◌, ◌%◌, ◌<◌, ◌≡◌, ◌↔◌, true, false, not, Option, none, some, arith, ltb, if◌then◌else◌,
  pos, pos_part, eqb_ℤ,
}
use rzp_rebound.Time.{Instant, Location, minute_of_day}
use rzp_rebound.Quiet.{
  Window, with_default, validate, contains_minute, contains, ist, is_zero_window,
}

-- How many minutes a band lasts, the wrap past midnight included.
abbrev pub band_length : ℕ → ℕ → ℕ
band_length s e = if ltb s e then e - s else e + 1440 - s

-- The minute lies on the way from the window's start to its end, around the day.
abbrev pub InBand : Window → ℕ → Type 0
InBand w m =
    (m + 1440 - pos_part w.start_minute) % 1440
    < band_length (pos_part w.start_minute) (pos_part w.end_minute)

-- A window as `Contains` reads it: in range, and with two different ends.
validate-with_default :
    (w : Window)
    → validate w ≡ none
    → (validate (with_default w) ≡ none) × (is_zero_window (with_default w) ≡ false)
unfolding validate with_default
validate-with_default w v = ground arith

contains_minute-InBand :
    (w : Window) (m : ℕ)
    → validate w ≡ none
    → is_zero_window w ≡ false
    → m < 1440
    → (contains_minute w (pos m) ≡ true) ↔ InBand w m
unfolding validate contains_minute
contains_minute-InBand w m v z lt = (λ c. ground arith, λ c. ground arith)

minute_of_day-lt : (t : Instant) (loc : Location) → minute_of_day t loc < 1440
unfolding minute_of_day
minute_of_day-lt t loc = omega arith

-- The zone that a nil or given location stands for.
unfoldable pub zone : Option Location → Option Location → Location
unfolding ist
zone kolkata none = ist kolkata
zone kolkata (some loc) = loc

-- For every window that Validate accepts, the zero Window included, and every zone: the window
-- contains an instant exactly when the instant's local minute, counted on from the start of the
-- window (or of the default one, for the zero Window) around the day, is below its length.
pub contains_iff :
    (kolkata : Option Location) (w : Window) (t : Instant) (loc : Option Location)
    → validate w ≡ none
    → (contains kolkata w t loc ≡ true)
      ↔ InBand (with_default w) (minute_of_day t (zone kolkata loc))
unfolding contains zone
contains_iff kolkata w t none v =
    let (valid, set) = validate-with_default w v in
    contains_minute-InBand (with_default w) _ valid set (minute_of_day-lt t (ist kolkata))
contains_iff kolkata w t (some loc) v =
    let (valid, set) = validate-with_default w v in
    contains_minute-InBand (with_default w) _ valid set (minute_of_day-lt t loc)

abbrev pub swap : Window → Window
swap w = record { start_minute = w.end_minute; end_minute = w.start_minute }

-- Two windows with swapped ends, which differ, split the day: every instant is in exactly one.
pub contains-swap :
    (kolkata : Option Location) (w : Window) (t : Instant) (loc : Option Location)
    → eqb_ℤ w.start_minute w.end_minute ≡ false
    → contains kolkata (swap w) t loc ≡ not (contains kolkata w t loc)
unfolding contains
contains-swap kolkata w t none h = ground arith
contains-swap kolkata w t (some loc) h = ground arith
