-- ===== src/Time.antt =====
-- What the program uses of Go's package time, and internal/clock/clock.go.
-- An instant is the number of nanoseconds since 0001-01-01 00:00:00 UTC, which is the zero
-- time.Time, so `IsZero` tests for 0; instants before the year 1 are not represented, and the
-- monotonic reading is left out. A Duration is an int64 of nanoseconds.
pub mod Elapsed
use rzp_rebound.Prelude.{
  ℕ, suc, ◌+◌, ◌-◌, ◌*◌, ◌/◌, ◌%◌, ◌^◌, ◌≤◌, Bool, Option, none, some, ltb, eqb, if◌then◌else◌, ℤ,
  pos, negsuc, pos_part, neg_part, ltb_ℤ, ◌+ℤ◌, ◌-ℤ◌,
}

abbrev pub Instant : Type 0
Instant = ℕ

abbrev pub Duration : Type 0
Duration = ℤ

abbrev pub second : ℕ
second = 1_000_000_000

abbrev pub hour : ℕ
hour = 3600 * second

-- The Unix second of the zero instant, negated.
abbrev pub unix_epoch : ℕ
unix_epoch = 62135596800

abbrev pub zero_time : Instant
zero_time = 0

-- t.IsZero()
abbrev pub is_zero : Instant → Bool
is_zero t = eqb t 0

-- t.Before(u)
abbrev pub before : Instant → Instant → Bool
before t u = ltb t u

-- A difference of instants saturates at the bounds of a Duration.
abbrev pub saturate : ℤ → Duration
saturate d =
    if ltb_ℤ (pos (2 ^ 63 - 1)) d
    then pos (2 ^ 63 - 1)
    else if ltb_ℤ d (negsuc (2 ^ 63 - 1))
    then negsuc (2 ^ 63 - 1)
    else d

-- t.Sub(u)
unfoldable pub sub_time : Instant → Instant → Duration
unfolding ◌-ℤ◌
sub_time t u = saturate (pos t -ℤ pos u)

-- t.Add(d)
unfoldable pub add_time : Instant → Duration → Instant
add_time t d = t + pos_part d - neg_part d

-- t.Unix()
unfoldable pub unix : Instant → ℤ
unfolding ◌-ℤ◌
unix t = pos (t / second) -ℤ pos unix_epoch

-- time.Unix(s, 0).UTC()
unfoldable pub of_unix : ℤ → Instant
of_unix s = (unix_epoch + pos_part s - neg_part s) * second

-- A zone is its offset from UTC in seconds at each instant, which the tz database supplies.
abbrev pub Location : Type 0
Location = Instant → ℤ

-- time.FixedZone
abbrev pub fixed_zone : ℕ → Location
fixed_zone offset t = pos offset

-- `local.Hour()*60 + local.Minute()` for `local := t.In(loc)`
unfoldable pub minute_of_day : Instant → Location → ℕ
minute_of_day t loc =
    (t / second + pos_part (loc t) + (86400 - neg_part (loc t) % 86400)) % 86400 / 60
