-- ===== src/Recovery/Examples.antt =====
-- The arms on one failed order: against a gateway that never changes, and against the one that is
-- kept in memory.
use rzp_rebound.Prelude.{
  ℕ, String, ◌≡◌, ◌↔◌, refl, inl, true, false, Option, none, some, [], ◌∷◌, lookup, pos, arith,
  ne-of_==,
}
use rzp_rebound.Classify.{retry_eligible}
use rzp_rebound.Cards.{Card, failure_for, success_card}
use rzp_rebound.Policy.{Platform, Config, Rule, Reason}
use rzp_rebound.Razorpay.{Order}
use rzp_rebound.Razorpay.Port.{Port, Clock}
use rzp_rebound.Audit.{Services, new_recorder}
use rzp_rebound.OrderStore.{new_store, attempts}
use rzp_rebound.Gateway.{Fake, Built, order_status_paid}
use rzp_rebound.Poller.Examples.{still, ticking}
use rzp_rebound.Recovery.{AgentVisibleOrder, Surface, State, action_none, Attempter}
use rzp_rebound.Recovery.Arms.{Arm, naive_arm}
use rzp_rebound.Recovery.Arms.Rules.{rules, decision_on}
use rzp_rebound.Recovery.Arms.Gated.{IsEarly, DidNothing, rules-DidNothing}
use rzp_rebound.Recovery.Fake.{fake_attempter}
use rzp_rebound.Recovery.Fake.Recovers.{naive_times, naive_times-recovers}

abbrev services : Services
services = record {
  replace_all = λ pattern text by. text;
  to_lower = λ text. text;
  trim_space = λ text. text;
  marshal = λ row. none;
  write = λ rows row. none;
}

abbrev plain : String → String
plain text = text

abbrev no_span : ℕ → Option (String × String)
no_span w = none

abbrev no_text : Reason → String
no_text reason = ""

abbrev refusing : Attempter ℕ
refusing w order card = (w, (record { payment_id = ""; gateway_calls = pos 1 }, some "declined"))

abbrev steady : Surface ℕ
steady = record {
  port = still;
  attempter = refusing;
  clock = ticking;
  span = no_span;
  services = services;
  quoted = plain;
  reason_text = no_text;
  card = "4100";
  currency = "";
}

abbrev order : AgentVisibleOrder
order = record { order_id = "order_1"; amount_paise = pos 50000; currency = "INR"; receipt = "r-1" }

abbrev begun : State ℕ
begun = record { world = 10; store = new_store; recorder = new_recorder }

abbrev twice : Arm
twice = record { mind = naive_arm; naive_max = pos 2; kill = false }

abbrev gate : Platform × Config
gate = (
  record { kolkata = none; sha256_hex = plain },
  record {
    max_touches_per_item = pos 3;
    cooldown = pos 0;
    notify_window = pos 1;
    amount_ceiling_paise = pos 1500000;
    write_off_floor_paise = pos 10000;
    action_budget = pos 500;
    contact_window = record { start_minute = pos 0; end_minute = pos 1440 };
    contact_location = none;
    kill_switch = false;
    max_attempts_per_order = pos 3;
  },
)

rules-DidNothing_example :
    let d = decision_on steady gate false begun order retry_eligible in
    let (s', acted) = rules steady gate false begun order retry_eligible in
    DidNothing steady gate false begun order retry_eligible s' acted.0
    × IsEarly d.rule_id
    × (acted.1 ≡ none
        → (acted.0.kind ≡ action_none)
          × ((acted.0.escalated ≡ true) ↔ (d.rule_id ≡ Rule.unknown_fail_closed)))
rules-DidNothing_example = rules-DidNothing steady gate false begun order retry_eligible

abbrev failing : Card
failing = record {
  number = "4100";
  error_code = "insufficient_fund";
  verified = false;
  documented_date = "2026-08-31";
}

abbrev built : Built
built = record {
  intn = λ n. 0;
  cards = record {
    by_number = ("4100", failing) ∷ [];
    by_error_code = ("insufficient_fund", failing) ∷ [];
    success = "5200";
  };
}

abbrev frozen : Clock Fake
frozen = record { now = λ w. 0; wait = λ w d. (w, none) }

-- The naive arm calls nothing of the port.
abbrev silent : Port Fake
silent = record {
  create_order = λ w req. (w, inl "");
  fetch_order = λ w id. (w, inl "");
  list_payments_for_order = λ w id. (w, inl "");
  fetch_payment = λ w id. (w, inl "");
  create_payment_link = λ w req. (w, inl "");
  resend_notification = λ w id medium. (w, inl "");
}

abbrev memory : Surface Fake
memory = record {
  port = silent;
  attempter = fake_attempter built plain (λ w. 0);
  clock = frozen;
  span = λ w. none;
  services = services;
  quoted = plain;
  reason_text = no_text;
  card = "4100";
  currency = "";
}

abbrev tried_once : Order
tried_once = record {
  id = "order_1";
  amount_paise = pos 50000;
  amount_paid = pos 0;
  amount_due = pos 50000;
  currency = "INR";
  receipt = "r-1";
  status = "attempted";
  attempts = pos 1;
  created_at = pos 0;
  notes = [];
}

abbrev failed : State Fake
failed = record {
  world = record {
    drawn = 0;
    orders = ("order_1", tried_once) ∷ [];
    payments_by_order = [];
    payments = [];
    links = [];
    recovers_after = ("order_1", pos 2) ∷ [];
  };
  store = new_store;
  recorder = new_recorder;
}

naive_times-recovers_example :
    (o : Order) × (lookup "order_1" (naive_times twice memory order 2 failed).world.orders ≡ some o)
    × (o.status ≡ order_status_paid)
naive_times-recovers_example =
    naive_times-recovers built twice memory 2 refl (omega arith) refl failing
      (unfold failure_for lookup in refl) (unfold success_card in refl) order failed tried_once 2 1
      0 2 (unfold lookup in refl) (ne-of_== "attempted" order_status_paid refl) refl
      (unfold lookup in refl) (omega arith) (unfold attempts lookup in refl) (omega arith)
      (omega arith)
