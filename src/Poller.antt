-- ===== src/Poller.antt =====
-- internal/poller/poller.go: an order is read until it is paid or the time is spent. The loop of
-- the source has no bound of its own, so it recurses on fuel; Poller/Ends.antt gives enough.
pub mod Turns
pub mod Ends
pub mod Examples
use rzp_rebound.Prelude.{
  ℕ, zero, suc, ◌*◌, String, ◌<>◌, ◌⊎◌, inl, inr, Bool, true, false, ◌==◌, if◌then◌else◌, Option,
  none, some, List, [], ◌∷◌, ℤ, pos, ltb_ℤ, leb_ℤ, ◌+ℤ◌, wrap64,
}
use rzp_rebound.Time.{Instant, Duration, second, sub_time}
use rzp_rebound.Razorpay.{Order, Payment, payment_status_failed}
use rzp_rebound.Razorpay.Port.{Port, Clock}
use rzp_rebound.Gateway.{order_status_paid}

abbrev pub default_interval : Duration
default_interval = pos 500_000_000

abbrev pub default_max_backoff : Duration
default_max_backoff = pos (5 * second)

abbrev pub default_max_wait : Duration
default_max_wait = pos (120 * second)

pub record Poller : Type 0 where
  pub interval : Duration
  pub max_backoff : Duration
  pub max_wait : Duration

abbrev or_default : Duration → Duration → Duration
or_default d default = if leb_ℤ d (pos 0) then default else d

-- New, given everything that it requires
unfoldable pub new_poller : Duration → Duration → Duration → Poller
new_poller interval max_backoff max_wait =
    let first = or_default interval default_interval in
    let cap = or_default max_backoff default_max_backoff in
    record {
      interval = first;
      max_backoff = if ltb_ℤ cap first then first else cap;
      max_wait = or_default max_wait default_max_wait;
    }

-- The Result of the source.
pub record PollResult : Type 0 where
  pub order_id : String
  pub order : Order
  pub payments : List Payment
  pub terminal : Bool
  pub timed_out : Bool
  pub failed_payment : Option Payment
  pub polls : ℤ
  pub waited : Duration

unfoldable pub is_terminal : String → Bool
is_terminal status = status == order_status_paid

-- The last failed payment of the list, or else `found`.
unfoldable pub last_failed_after : Option Payment → List Payment → Option Payment
last_failed_after found [] = found
last_failed_after found (p ∷ ps) =
    last_failed_after (if p.status == payment_status_failed then some p else found) ps

-- lastFailed, read from the front
unfoldable pub last_failed : List Payment → Option Payment
unfolding last_failed_after
last_failed ps = last_failed_after none ps

unfoldable pub plus : Duration → Duration → Duration
unfolding wrap64 ◌+ℤ◌
plus a b = wrap64 (a +ℤ b)

-- min(backoff*2, p.maxBackoff)
unfoldable pub next_wait : Poller → Duration → Duration
unfolding wrap64 ◌+ℤ◌
next_wait p backoff =
    let doubled = wrap64 (backoff +ℤ backoff) in
    if ltb_ℤ p.max_backoff doubled then p.max_backoff else doubled

-- What a reading of the gateway leaves in the result.
unfoldable pub seen : PollResult → Order → List Payment → PollResult
seen res order payments = record res {
  order = order;
  payments = payments;
  failed_payment = last_failed payments;
  polls = plus res.polls (pos 1);
}

-- How one turn of the loop ends: the poll does, with its error, or the loop goes on.
pub data Turn : Type 0 where
  stop : PollResult → Option String → Turn
  again : PollResult → Duration → Turn

pub data Polled : Type 0 where
  finished : PollResult → Option String → Polled
  out_of_fuel : Polled

-- A turn past its wait
unfoldable pub after_wait : Poller → PollResult → Duration → Option String → Turn
after_wait p res backoff none =
    again (record res { waited = plus res.waited backoff }) (next_wait p backoff)
after_wait p res backoff (some e) =
    stop res (some ("poller: backoff on " <> (res.order_id <> (": " <> e))))

module _ {W : Type 0} (port : Port W) (clock : Clock W) (p : Poller) where
  -- A turn past the two readings
  unfoldable pub decide : W → Instant → Duration → PollResult → W × Turn
  unfolding is_terminal plus sub_time
  decide w start backoff res =
      if is_terminal res.order.status
      then (w, stop (record res { terminal = true }) none)
      else if ltb_ℤ p.max_wait (plus (sub_time (clock.now w) start) backoff)
      then (w, stop (record res { timed_out = true }) none)
      else (let (w', failed) = clock.wait w backoff in (w', after_wait p res backoff failed))

  unfoldable pub turn : W → Instant → Duration → PollResult → W × Turn
  turn w start backoff res =
      let (w1, fetched) = port.fetch_order w res.order_id in
      elim fetched [
        | inl e ↦ (w1, stop res (some ("poller: fetch " <> (res.order_id <> (": " <> e)))))
        | inr order ↦
            let (w2, listed) = port.list_payments_for_order w1 res.order_id in
            elim listed [
              | inl e ↦ (
                w2,
                stop res (some ("poller: list payments for " <> (res.order_id <> (": " <> e)))),
              )
              | inr payments ↦ decide w2 start backoff (seen res order payments)
            ]
      ]

  unfoldable pub poll_from : ℕ → W → Instant → Duration → PollResult → W × Polled
  poll_from zero w start backoff res = (w, out_of_fuel)
  poll_from (suc fuel) w start backoff res =
      let (w', ended) = turn w start backoff res in
      elim ended [
        | stop last err ↦ (w', finished last err)
        | again next longer ↦ poll_from fuel w' start longer next
      ]

-- The Result that a poll starts from, with the zero order in it.
unfoldable pub unread : String → PollResult
unread id = record {
  order_id = id;
  order = record {
    id = "";
    amount_paise = pos 0;
    amount_paid = pos 0;
    amount_due = pos 0;
    currency = "";
    receipt = "";
    status = "";
    attempts = pos 0;
    created_at = pos 0;
    notes = [];
  };
  payments = [];
  terminal = false;
  timed_out = false;
  failed_payment = none;
  polls = pos 0;
  waited = pos 0;
}

-- p.PollUntilTerminal
unfoldable pub poll_until_terminal :
    {W : Type 0} → Port W → Clock W → Poller → ℕ → W → String → W × Polled
unfolding poll_from
poll_until_terminal port clock p fuel w id =
    poll_from port clock p fuel w (clock.now w) p.interval (unread id)
