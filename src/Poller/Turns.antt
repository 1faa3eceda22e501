-- ===== src/Poller/Turns.antt =====
-- One turn of the loop of internal/poller/poller.go: what it makes of the time and the result.
use rzp_rebound.Prelude.{
  ℕ, ◌+◌, ◌-◌, ◌*◌, ◌^◌, ◌≤◌, ◌<◌, String, ◌≡◌, inl, inr, refl, sym, false, not, if◌then◌else◌,
  Option, none, some, List, Bool-cases, arith, pos, ltb, ltb_ℤ, ◌≤ℤ◌, ◌+ℤ◌, ◌-ℤ◌, wrap64,
}
use rzp_rebound.Time.{Instant, sub_time}
use rzp_rebound.Razorpay.{Order, Payment, Answer}
use rzp_rebound.Razorpay.Port.{Port, Clock}
use rzp_rebound.Poller.{
  Poller, PollResult, Turn, stop, again, Polled, finished, out_of_fuel, is_terminal, last_failed,
  plus, next_wait, after_wait, seen, decide, turn,
}

-- The settings of a poller, whose times are positive.
abbrev pub set : (interval max_backoff max_wait : ℕ) → Poller
set interval max_backoff max_wait = record {
  interval = pos interval;
  max_backoff = pos max_backoff;
  max_wait = pos max_wait;
}

-- A reading takes at most `late`, a wait at least what was asked for and at most `late` more, and
-- the clock does not go back.
pub record IsTimely {W : Type 0} (port : Port W) (clock : Clock W) (late : ℕ) : Type 0 where
  pub fetch_forward : (w : W) (id : String) → clock.now w ≤ clock.now (port.fetch_order w id).0
  pub fetch_late : (w : W) (id : String) → clock.now (port.fetch_order w id).0 ≤ clock.now w + late
  pub list_forward :
      (w : W) (id : String) → clock.now w ≤ clock.now (port.list_payments_for_order w id).0
  pub list_late :
      (w : W) (id : String) → clock.now (port.list_payments_for_order w id).0 ≤ clock.now w + late
  pub wait_forward :
      (w : W) (d : ℕ)
      → (clock.wait w (pos d)).1 ≡ none
      → clock.now w + d ≤ clock.now (clock.wait w (pos d)).0
  pub wait_late : (w : W) (d : ℕ) → clock.now (clock.wait w (pos d)).0 ≤ clock.now w + d + late

elapsed_plus :
    (now start b : ℕ)
    → start ≤ now
    → now - start + b < 2 ^ 63
    → plus (sub_time now start) (pos b) ≡ pos (now - start + b)
unfolding plus sub_time wrap64 ◌+ℤ◌ ◌-ℤ◌
elapsed_plus now start b h fits = ground arith

plus_pos : (a b : ℕ) → a + b < 2 ^ 63 → plus (pos a) (pos b) ≡ pos (a + b)
unfolding plus wrap64 ◌+ℤ◌
plus_pos a b fits = ground arith

abbrev pub doubled : ℕ → ℕ → ℕ
doubled m b = if ltb m (b + b) then m else b + b

next_wait_pos :
    (i m t b : ℕ) → b ≤ m → m < 2 ^ 62 → next_wait (set i m t) (pos b) ≡ pos (doubled m b)
unfolding next_wait wrap64 ◌+ℤ◌
next_wait_pos i m t b h fits = ground arith

-- What the result of a poll says, when the poll ends with the error `err`.
abbrev pub Told : PollResult → Option String → Type 0
Told r none =
    (r.terminal ≡ is_terminal r.order.status)
    × (r.timed_out ≡ not (is_terminal r.order.status))
    × (r.failed_payment ≡ last_failed r.payments)
Told r (some e) = (r.terminal ≡ false) × (r.timed_out ≡ false)

module _ {W : Type 0} (clock : Clock W) (t late : ℕ) where
  -- The poll that began at `start` is over, in time, and tells what it saw.
  abbrev pub EndedFrom : Instant → W × Polled → Type 0
  EndedFrom start (w, out_of_fuel) = ⊥
  EndedFrom start (w, finished r err) =
      (clock.now w ≤ start + t + 3 * late) × (r.waited ≤ℤ pos t) × Told r err

  -- What holds before a turn: `k` is how long was waited, and `b` the next wait.
  abbrev pub Waiting : Instant → W → ℕ → PollResult → Type 0
  Waiting start w k r =
      (start + k ≤ clock.now w)
      × (k ≤ t)
      × (r.waited ≡ pos k)
      × (r.terminal ≡ false)
      × (r.timed_out ≡ false)

  -- How a turn ends.
  abbrev pub Turned : ℕ → Instant → ℕ → ℕ → W × Turn → Type 0
  Turned m start n k (w, stop r err) =
      (clock.now w ≤ start + t + 3 * late) × (r.waited ≤ℤ pos t) × Told r err
  Turned m start n b (w, again r longer) =
      (k : ℕ) × Waiting start w k r
      × (clock.now w ≤ start + t + late)
      × (longer ≡ pos (doubled m b))
      × (n + b ≤ clock.now w)
      × (n + b ≤ start + t)

module _ {W : Type 0} (port : Port W) (clock : Clock W) (i m t late : ℕ)
    (timely : IsTimely port clock late) (small : m < 2 ^ 62)
    (fits : t + m + 3 * late < 2 ^ 63) where
  open timely use {fetch_forward, fetch_late, list_forward, list_late, wait_forward, wait_late}

  abbrev p : Poller
  p = set i m t

  after_wait-Turned :
      (start n b k : ℕ) (w : W) (res : PollResult) (failed : Option String)
      → b ≤ m
      → n ≤ clock.now w
      → Waiting clock t late start w k res
      → clock.now w ≤ start + t + 3 * late
      → clock.now w - start + b ≤ t
      → (clock.wait w (pos b)).1 ≡ failed
      → Turned clock t late m start n b ((clock.wait w (pos b)).0, after_wait p res (pos b) failed)
  unfolding after_wait
  after_wait-Turned start n b k w res none short later (before, bound, waited, ended, live) in_time
        room e =
      (
        k + b,
        (
          ground (arith, before, wait_forward w b e),
          ground (arith, before, room),
          ground (arith, waited, plus_pos k b (omega arith)),
          ended,
          live,
        ),
        ground (arith, wait_late w b, room),
        next_wait_pos i m t b short small,
        ground (arith, wait_forward w b e),
        omega arith,
      )
  after_wait-Turned start n b k w res (some text) short later (before, bound, waited, ended, live)
        in_time room e =
      (ground (arith, wait_late w b, room), ground (arith, waited), (ended, live))

  decide-Turned :
      (start n b k : ℕ) (w : W) (res : PollResult)
      → b ≤ m
      → n ≤ clock.now w
      → Waiting clock t late start w k res
      → res.failed_payment ≡ last_failed res.payments
      → clock.now w ≤ start + t + 3 * late
      → Turned clock t late m start n b (decide port clock p w start (pos b) res)
  unfolding decide
  decide-Turned start n b k w res short later state newest in_time =
      elim (Bool-cases (is_terminal res.order.status)) [
        | inl paid ↦
            rw (paid, decide)
              (in_time, ground (arith, state), (sym paid, ground (arith, state, paid), newest))
        | inr unpaid ↦
            let spent = elapsed_plus (clock.now w) start b (omega arith) (omega arith) in
            elim (Bool-cases (ltb_ℤ (pos t) (pos (clock.now w - start + b)))) [
              | inl over ↦
                  rw (unpaid, spent, over, decide)
                    (
                      in_time,
                      ground (arith, state),
                      (ground (arith, state, unpaid), ground (arith, unpaid), newest),
                    )
              | inr room ↦
                  rw (unpaid, spent, room, decide)
                    (after_wait-Turned start n b k w res _ short later state in_time (ground arith)
                      refl)
            ]
      ]

  pub turn-Turned :
      (start b k : ℕ) (w : W) (res : PollResult)
      → b ≤ m
      → Waiting clock t late start w k res
      → clock.now w ≤ start + t + late
      → Turned clock t late m start (clock.now w) b (turn port clock p w start (pos b) res)
  unfolding turn
  turn-Turned start b k w res short state in_time = fetched (port.fetch_order w res.order_id).1 refl
    where
      w1 : W
      w1 = (port.fetch_order w res.order_id).0

      f1 : clock.now w ≤ clock.now w1
      f1 = fetch_forward w res.order_id

      l1 : clock.now w1 ≤ clock.now w + late
      l1 = fetch_late w res.order_id

      listed :
          (order : Order) (answer : Answer (List Payment))
          → (port.fetch_order w res.order_id).1 ≡ inr order
          → (port.list_payments_for_order w1 res.order_id).1 ≡ answer
          → Turned clock t late m start (clock.now w) b (turn port clock p w start (pos b) res)
      listed order (inl e) read list =
          rw (read, list, turn)
            (
              omega (arith, f1, l1, list_late w1 res.order_id),
              ground (arith, state),
              (ground (arith, state), ground (arith, state)),
            )
      listed order (inr payments) read list =
          let f2 = list_forward w1 res.order_id in
          let l2 = list_late w1 res.order_id in
          rw (read, list, turn)
            (decide-Turned start (clock.now w) b k _ (seen res order payments) short
              (omega (arith, f1, f2))
              (unfold seen in
                (
                  ground (arith, state, f1, f2),
                  ground (arith, state),
                  ground (arith, state),
                  ground (arith, state),
                  ground (arith, state),
                ))
              (unfold seen in refl) (omega (arith, l1, l2)))

      fetched :
          (answer : Answer Order)
          → (port.fetch_order w res.order_id).1 ≡ answer
          → Turned clock t late m start (clock.now w) b (turn port clock p w start (pos b) res)
      fetched (inl e) read =
          rw (read, turn)
            (
              omega (arith, f1, l1),
              ground (arith, state),
              (ground (arith, state), ground (arith, state)),
            )
      fetched (inr order) read = listed order _ read refl
