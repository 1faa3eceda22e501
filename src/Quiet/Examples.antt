-- ===== src/Quiet/Examples.antt =====
-- The default band at 10:00 in India.
use rzp_rebound.Prelude.{◌≡◌, refl, ◌↔◌, true, none, ◌+◌, ◌*◌}
use rzp_rebound.Time.{Instant, second, unix_epoch, minute_of_day}
use rzp_rebound.Quiet.{default_window, with_default, validate, contains}
use rzp_rebound.Quiet.Band.{InBand, zone, contains_iff}

abbrev ten_am : Instant
ten_am = (unix_epoch + 1_700_022_600) * second

default_valid : validate default_window ≡ none
unfolding validate default_window
default_valid = refl

contains_iff_example :
    (contains none default_window ten_am none ≡ true)
    ↔ InBand (with_default default_window) (minute_of_day ten_am (zone none none))
contains_iff_example = contains_iff none default_window ten_am none default_valid
