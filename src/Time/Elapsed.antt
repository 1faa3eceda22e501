-- ===== src/Time/Elapsed.antt =====
-- The saturated difference of two instants against a positive interval.
use rzp_rebound.Prelude.{ℕ, ◌+◌, ◌^◌, ◌<◌, ◌↔◌, arith, pos, ◌<ℤ◌}
use rzp_rebound.Time.{Instant, sub_time}

pub sub_time-lt_iff :
    (now t : Instant) (d : ℕ) → 0 < d → d < 2 ^ 63 → (sub_time now t <ℤ pos d) ↔ (now < t + d)
unfolding sub_time
sub_time-lt_iff now t d h fits = (λ c. ground arith, λ c. ground arith)
