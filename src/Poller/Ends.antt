-- ===== src/Poller/Ends.antt =====
-- A poll of internal/poller/poller.go ends, in time, with what it saw last.
use rzp_rebound.Prelude.{ℕ, ◌+◌, ◌*◌, ◌^◌, ◌<◌}
use rzp_rebound.Razorpay.Port.{Port, Clock}
use rzp_rebound.Poller.{Poller}
use rzp_rebound.Poller.Turns.{set, IsTimely}

module _ {W : Type 0} (port : Port W) (clock : Clock W) (i m t late : ℕ)
    (timely : IsTimely port clock late) (small : m < 2 ^ 62)
    (fits : t + m + 3 * late < 2 ^ 63) where
  abbrev p : Poller
  p = set i m t
