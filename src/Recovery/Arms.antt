-- ===== src/Recovery/Arms.antt =====
-- internal/recovery/arms.go: the three arms of an experiment, each of which takes one action on one
-- order. What NewArm requires besides the id and the policy is given.
pub mod Rules
pub mod Gated
pub mod Capped
use rzp_rebound.Prelude.{
  String, ◌<>◌, ◌⊎◌, inl, inr, Bool, true, false, not, ◌||◌, ◌&&◌, ◌==◌, if◌then◌else◌, Option,
  none, some, List, [], ◌∷◌, Dict, insert, ℤ, pos, leb_ℤ, ◌+ℤ◌, wrap64, decimal,
}
use rzp_rebound.Time.{zero_time}
use rzp_rebound.Classify
use rzp_rebound.Classify.{Class}
use rzp_rebound.Policy.{
  Platform, Config, Verdict, Decision, Request, evaluate, allowed, idempotency_key, verdict_text,
  rule_text,
}
use rzp_rebound.Intervene.{short_key}
use rzp_rebound.Razorpay.{CreatePaymentLinkRequest, PaymentLink, Answer, medium_email}
use rzp_rebound.Razorpay.Codec.{with_currency}
use rzp_rebound.Notifier.{SendReceipt, send_payment_link}
use rzp_rebound.Audit.{Event, RecordError, kind_policy_evaluated}
use rzp_rebound.OrderStore.{Store, attempts, snapshot, commit, increment}
use rzp_rebound.Recovery.{
  AgentVisibleOrder, ActionResult, AttemptRecord, Surface, State, action_none,
  action_retry_same_instrument, action_request_reauth, action_request_new_instrument,
  action_for_class, record_row, record_error_text, bool_text,
}

abbrev pub arm_control : String
arm_control = "a0-control"

abbrev pub arm_naive : String
arm_naive = "a1-naive"

abbrev pub arm_rules : String
arm_rules = "a3-rules"

abbrev default_naive_max_attempts : ℤ
default_naive_max_attempts = pos 3

-- The id of an arm, with what the gate of the rules arm is built with.
pub data Mind : Type 0 where
  control_arm naive_arm : Mind
  rules_arm : Platform × Config → Mind

-- a.ID()
unfoldable pub arm_id : Mind → String
arm_id control_arm = arm_control
arm_id naive_arm = arm_naive
arm_id (rules_arm gate) = arm_rules

pub record Arm : Type 0 where
  pub mind : Mind
  pub naive_max : ℤ
  pub kill : Bool

pub data ArmError : Type 0 where
  unknown_arm : String → ArmError
  no_policy : ArmError

abbrev arm_of : ℤ → Bool → Mind → Arm
arm_of naive_max kill mind = record {
  mind = mind;
  naive_max = if leb_ℤ naive_max (pos 0) then default_naive_max_attempts else naive_max;
  kill = kill;
}

unfoldable pub new_arm : String → Option (Platform × Config) → ℤ → Bool → ArmError ⊎ Arm
new_arm id policy naive_max kill =
    if id == arm_control
    then inr (arm_of naive_max kill control_arm)
    else if id == arm_naive
    then inr (arm_of naive_max kill naive_arm)
    else if id == arm_rules
    then elim policy [
      | none ↦ inl no_policy
      | some gate ↦ inr (arm_of naive_max kill (rules_arm gate))
    ]
    else inl (unknown_arm id)

-- What an act comes to: the result and the text of its error.
abbrev pub Acted : Type 0 → Type 0
Acted W = State W × (ActionResult × Option String)

unfoldable pub with_detail : ActionResult → String → String → ActionResult
with_detail r key value = record r { detail = insert key value r.detail }

-- A result before anything was reached.
abbrev quiet : String → Dict String → ActionResult
quiet kind detail = record {
  kind = kind;
  claimed_recovered = false;
  policy_verdict = "";
  policy_rule = "";
  escalated = false;
  side_effect = false;
  gateway_calls = pos 0;
  detail = detail;
}

unfoldable pub control : {W : Type 0} → Arm → State W → Acted W
control a s = (
  s,
  (
    quiet action_none
        (("arm", arm_id a.mind) ∷ ("side_effect", "false") ∷ ("policy_consulted", "false") ∷ []),
    none,
  ),
)

-- The details that an attempt leaves, besides its error.
unfoldable pub attempted_detail : ActionResult → AttemptRecord → ActionResult
unfolding wrap64 ◌+ℤ◌
attempted_detail r made =
    let reached = record (with_detail r "side_effect" "true") {
      side_effect = true;
      gateway_calls = wrap64 (r.gateway_calls +ℤ made.gateway_calls);
    } in
    let counted = with_detail reached "gateway_calls" (decimal made.gateway_calls) in
    if made.payment_id == "" then counted else with_detail counted "payment_id" made.payment_id

-- The end of an act whose call answered with the error `err`.
unfoldable pub claimed : ActionResult → Option String → ActionResult
claimed r none = record r { claimed_recovered = true }
claimed r (some e) = with_detail r "action_error" e

-- The attempt of the naive arm and of retry, committed under the key.
unfoldable pub represent :
    {W : Type 0} → Surface W → State W → AgentVisibleOrder → ActionResult → String → Acted W
represent u s order r key =
    let (w, (made, err)) = u.attempter s.world order u.card in
    let store =
      (commit s.store order.order_id key action_retry_same_instrument (u.clock.now w)).0 in
    (record s { world = w; store = store }, (claimed (attempted_detail r made) err, err))

unfoldable pub naive : {W : Type 0} → Arm → Surface W → State W → AgentVisibleOrder → Acted W
naive a u s order =
    let made = attempts s.store order.order_id in
    let first =
      quiet action_retry_same_instrument
        (("arm", arm_id a.mind) ∷ ("policy_consulted", "false") ∷ ("side_effect", "false") ∷ []) in
    if leb_ℤ a.naive_max made
    then (
      s,
      (
        record (with_detail first "stopped_at_arm_cap" (decimal a.naive_max)) {
          kind = action_none;
        },
        none,
      ),
    )
    else represent u s order (with_detail first "attempt_no" (decimal (increment made))) ""
