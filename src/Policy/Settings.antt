-- ===== src/Policy/Settings.antt =====
-- The settings of the gate after their defaults, and the cadence of a source under them.
use rzp_rebound.Prelude.{◌≡◌, ◌≢◌, refl, false, Option, none, pos, ◌≤ℤ◌, ◌<ℤ◌, arith}
use rzp_rebound.Time.{Location}
use rzp_rebound.Quiet.{is_zero_window}
use rzp_rebound.Policy.{Config, with_defaults}

-- Settings that every rule can read as they stand.
pub record IsComplete (c : Config) : Type 0 where
  pub cap : pos 0 ≤ℤ c.max_touches_per_item
  pub one_spelling : c.max_attempts_per_order ≡ c.max_touches_per_item
  pub window : pos 0 <ℤ c.notify_window
  pub ceiling : pos 0 <ℤ c.amount_ceiling_paise
  pub floor : c.write_off_floor_paise ≢ pos 0
  pub budget : pos 0 <ℤ c.action_budget
  pub band : is_zero_window c.contact_window ≡ false
  pub zone : c.contact_location ≢ none

-- policy.New leaves complete settings, whatever it is given.
pub with_defaults-IsComplete :
    (kolkata : Option Location) (c : Config) → IsComplete (with_defaults kolkata c)
unfolding with_defaults
with_defaults-IsComplete kolkata c = record {
  cap = ground arith;
  one_spelling = refl;
  window = ground arith;
  ceiling = ground arith;
  floor = ground arith;
  budget = ground arith;
  band = ground arith;
  zone = ground arith;
}

-- Filling in the defaults of filled settings changes nothing.
pub with_defaults_idem :
    (kolkata : Option Location) (c : Config)
    → with_defaults kolkata (with_defaults kolkata c) ≡ with_defaults kolkata c
unfolding with_defaults
with_defaults_idem kolkata c = ground arith
