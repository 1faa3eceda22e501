-- ===== src/Gateway/Examples.antt =====
-- One order on the gateway that is kept in memory: an attempt that fails, and one that pays it.
use rzp_rebound.Prelude.{
  ◌/◌, ◌%◌, String, ◌≡◌, refl, inr, false, some, List, [], ◌∷◌, length, lookup, lookup_or, insert,
  ℤ, pos, wrap64,
}
use rzp_rebound.Time.{unix}
use rzp_rebound.Cards.{Card, failure_for, success_card}
use rzp_rebound.Razorpay.{Order, Payment}
use rzp_rebound.Razorpay.Codec.{CreateOrderRequest}
use rzp_rebound.Gateway.{
  Fake, Built, new_fake, new_id, create_order, list_payments_for_order, order_status_paid,
  put_payment, one_more, payment_ids,
}
use rzp_rebound.Gateway.Payments.{
  attempt_payment, attempt_unpaid, authorizes, captured, declined, payment_on, failed_for,
}
use rzp_rebound.Gateway.Sound.{IsSound}
use rzp_rebound.Gateway.Reached.{Call, Reached, start, after, create, attempt, seed, perform}
use rzp_rebound.Gateway.Backed.{AllBacked}
use rzp_rebound.Gateway.Drawn.{Drawn, drawn-AllBacked}
use rzp_rebound.Gateway.Settled.{reached_lists, paid_stays}

abbrev declined_card : Card
declined_card = record {
  number = "4100";
  error_code = "card_declined";
  verified = false;
  documented_date = "2026-08-31";
}

abbrev built : Built
built = record {
  intn = λ n. 0;
  cards = record {
    by_number = ("4100", declined_card) ∷ [];
    by_error_code = ("card_declined", declined_card) ∷ [];
    success = "5200";
  };
}

abbrev order_id : String
order_id = "order_aaaaaaaaaaaaaa"

abbrev first : CreateOrderRequest
first = record { amount_paise = pos 50000; currency = ""; receipt = "r-1"; notes = [] }

abbrev opened : Fake
opened = perform built new_fake 0 (create first)

abbrev tried_once : Fake
tried_once = perform built opened 0 (attempt order_id "4100")

abbrev paid_up : Fake
paid_up = perform built tried_once 0 (attempt order_id "5200")

abbrev left : String → ℤ → ℤ → ℤ → Order
left status paid due attempts = record {
  id = order_id;
  amount_paise = pos 50000;
  amount_paid = paid;
  amount_due = due;
  currency = "INR";
  receipt = "r-1";
  status = status;
  attempts = attempts;
  created_at = unix 0;
  notes = [];
}

opened-Reached : Reached built opened
unfolding lookup
opened-Reached = after start 0 (create first) refl

paid_up-Reached : Reached built paid_up
paid_up-Reached =
    after (after opened-Reached 0 (attempt order_id "4100") tt) 0 (attempt order_id "5200") tt

paid_up_order :
    lookup order_id paid_up.orders ≡ some (left order_status_paid (pos 50000) (pos 0) (pos 2))
unfolding perform create_order new_id attempt_payment attempt_unpaid authorizes captured declined
    payment_on failed_for put_payment one_more payment_ids lookup insert lookup_or failure_for
    success_card
paid_up_order = refl

-- Every fourteen characters, the length of an id, another letter is drawn.
abbrev varied : Built
varied = record built { intn = λ n. n / 14 % 10 }

abbrev varied_call : Fake → Call → Fake
varied_call f c = perform varied f 0 c

abbrev varied_opened : Fake
varied_opened = varied_call new_fake (create first)

abbrev varied_once : Fake
varied_once = varied_call varied_opened (attempt order_id "4100")

varied_paid-Drawn : Drawn varied (varied_call varied_once (attempt order_id "5200"))
unfolding perform create_order new_id attempt_payment attempt_unpaid authorizes captured declined
    payment_on failed_for put_payment one_more payment_ids lookup insert lookup_or failure_for
    success_card
varied_paid-Drawn =
    Drawn.after
      (Drawn.after (Drawn.after Drawn.start 0 (create first) refl) 0 (attempt order_id "4100") refl)
      0 (attempt order_id "5200") refl

drawn-AllBacked_example :
    let f = varied_call varied_once (attempt order_id "5200") in IsSound f × AllBacked f
drawn-AllBacked_example = drawn-AllBacked varied_paid-Drawn

reached_lists_example :
    (ps : List Payment) × (list_payments_for_order paid_up order_id ≡ inr (some ps))
    × (pos 2 ≡ wrap64 (pos (length ps)))
reached_lists_example =
    reached_lists order_id (left order_status_paid (pos 50000) (pos 0) (pos 2)) paid_up-Reached
      paid_up_order

paid_stays_example :
    lookup order_id (perform built paid_up 0 (seed order_id "card_declined")).orders
    ≡ some (left order_status_paid (pos 50000) (pos 0) (pos 2))
paid_stays_example =
    paid_stays built paid_up 0 order_id (left order_status_paid (pos 50000) (pos 0) (pos 2))
      paid_up_order refl (seed order_id "card_declined") tt
