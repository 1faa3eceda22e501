-- ===== src/Poller/Examples.antt =====
-- A poll of an order that stays unpaid, where the state outside is the time.
use rzp_rebound.Prelude.{ℕ, ◌+◌, inl, inr, none, [], pos, pos_part, arith}
use rzp_rebound.Razorpay.{Order}
use rzp_rebound.Razorpay.Port.{Port, Clock}
use rzp_rebound.Poller.Turns.{IsTimely}

abbrev pub unpaid : Order
unpaid = record {
  id = "order_1";
  amount_paise = pos 50000;
  amount_paid = pos 0;
  amount_due = pos 50000;
  currency = "INR";
  receipt = "r-1";
  status = "attempted";
  attempts = pos 1;
  created_at = pos 0;
  notes = [];
}

abbrev pub still : Port ℕ
still = record {
  create_order = λ w req. (w, inl "unreachable");
  fetch_order = λ w id. (w, inr unpaid);
  list_payments_for_order = λ w id. (w, inr []);
  fetch_payment = λ w id. (w, inl "unreachable");
  create_payment_link = λ w req. (w, inl "unreachable");
  resend_notification = λ w id medium. (w, inl "unreachable");
}

abbrev pub ticking : Clock ℕ
ticking = record { now = λ w. w; wait = λ w d. (w + pos_part d, none) }

pub still-IsTimely : IsTimely still ticking 0
still-IsTimely = record {
  fetch_forward = λ w id. omega arith;
  fetch_late = λ w id. omega arith;
  list_forward = λ w id. omega arith;
  list_late = λ w id. omega arith;
  wait_forward = λ w d e. omega arith;
  wait_late = λ w d. omega arith;
}
