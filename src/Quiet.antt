-- ===== src/Quiet.antt =====
-- internal/quiet/quiet.go: the band of the day in which a customer may be contacted. The
-- fields of a Window are Go ints. `String` is text
-- output and is left out. The proofs are in the modules below.
pub mod Band
mod Examples
use rzp_rebound.Prelude.{
  ℕ, ◌+◌, ◌*◌, ◌&&◌, ◌||◌, Bool, false, Option, none, some, if◌then◌else◌, ℤ, pos, ltb_ℤ, leb_ℤ,
  eqb_ℤ,
}
use rzp_rebound.Time.{Instant, Location, fixed_zone, minute_of_day}

abbrev pub default_start_hour : ℤ
default_start_hour = pos 9

abbrev pub default_end_hour : ℤ
default_end_hour = pos 21

abbrev pub minutes_per_day : ℤ
minutes_per_day = pos 1440

abbrev pub ist_offset_seconds : ℕ
ist_offset_seconds = 5 * 3600 + 30 * 60

-- The zone that the tz database answers for Asia/Kolkata, or the fixed offset without one.
unfoldable pub ist : Option Location → Location
ist none = fixed_zone ist_offset_seconds
ist (some loc) = loc

pub record Window : Type 0 where
  pub start_minute : ℤ
  pub end_minute : ℤ

unfoldable pub default_window : Window
default_window = record { start_minute = pos (9 * 60); end_minute = pos (21 * 60) }

unfoldable pub always_open : Window
always_open = record { start_minute = pos 0; end_minute = minutes_per_day }

abbrev pub is_zero_window : Window → Bool
is_zero_window w = eqb_ℤ w.start_minute (pos 0) && eqb_ℤ w.end_minute (pos 0)

unfoldable pub with_default : Window → Window
unfolding default_window
with_default w = if is_zero_window w then default_window else w

pub data WindowError : Type 0 where
  start_outside : ℤ → WindowError
  end_outside : ℤ → WindowError
  ambiguous : ℤ → WindowError

abbrev outside : ℤ → Bool
outside v = ltb_ℤ v (pos 0) || ltb_ℤ minutes_per_day v

-- `none` is the nil error.
unfoldable pub validate : Window → Option WindowError
validate w =
    if is_zero_window w
    then none
    else if outside w.start_minute
    then some (start_outside w.start_minute)
    else if outside w.end_minute
    then some (end_outside w.end_minute)
    else if eqb_ℤ w.start_minute w.end_minute
    then some (ambiguous w.start_minute)
    else none

-- The switch of `Contains`, at a minute of the day.
unfoldable pub contains_minute : Window → ℤ → Bool
contains_minute w minute =
    if eqb_ℤ w.start_minute w.end_minute
    then false
    else if ltb_ℤ w.start_minute w.end_minute
    then leb_ℤ w.start_minute minute && ltb_ℤ minute w.end_minute
    else leb_ℤ w.start_minute minute || ltb_ℤ minute w.end_minute

-- A nil location is IST, for which `kolkata` is the tz database's answer.
unfoldable pub contains : Option Location → Window → Instant → Option Location → Bool
unfolding ist with_default contains_minute
contains kolkata w t none = contains_minute (with_default w) (pos (minute_of_day t (ist kolkata)))
contains kolkata w t (some loc) = contains_minute (with_default w) (pos (minute_of_day t loc))

unfoldable pub in_window : Option Location → Instant → Option Location → Bool
unfolding contains default_window
in_window kolkata t loc = contains kolkata default_window t loc
