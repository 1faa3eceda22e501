-- ===== src/Recovery/Cycle/Evidence.antt =====
-- What an outcome of internal/recovery/recovery.go rests on: the gateway, and the rows about it.
use rzp_rebound.Prelude.{
  String, ◌≡◌, ◌⊎◌, inr, true, false, ◌==◌, Option, none, some, List, [], ◌∷◌, map,
}
use rzp_rebound.Classify.{Class}
use rzp_rebound.Gateway.{order_status_paid}
use rzp_rebound.Razorpay.{Order}
use rzp_rebound.Audit.{Row, kind_classified, kind_action_skipped}
use rzp_rebound.Recovery.{AgentVisibleOrder, Surface, State, action_none}
use rzp_rebound.Recovery.Cycle.{
  Observed, Cycled, CycleError, poll_failed, not_recorded, read_back_failed, action_failed,
  ActionFunc, kind_action_taken, kind_outcome_observed,
}

abbrev pub kinds : List Row → List String
kinds = map (λ r. r.kind)

-- The row about the action says what was done: an action that reached the gateway was taken, and
-- one that was skipped was none.
abbrev pub Filed : Observed → String → Type 0
Filed out kind =
    ((kind ≡ kind_action_taken) ⊎ (kind ≡ kind_action_skipped))
    × (out.side_effect ≡ true → kind ≡ kind_action_taken)
    × (kind ≡ kind_action_skipped → out.action_kind ≡ action_none)

module _ {W : Type 0} (u : Surface W) where
  -- The states differ in the trail alone.
  abbrev pub Keeps : State W → State W → Type 0
  Keeps s s' = (s'.world ≡ s.world) × (s'.store ≡ s.store)

  -- The gateway said it: the order was read in the world that is left for the class of the outcome,
  -- and the outcome says what was read.
  abbrev pub ReadBack : (Class → W) → Observed → Type 0
  ReadBack left out =
      (order : Order) × ((u.port.fetch_order (left out.class) out.order_id).1 ≡ inr order)
      × (out.final_order_status ≡ order.status)
      × (out.recovered ≡ (order.status == order_status_paid))
      × (out.amount_paid_paise ≡ order.amount_paid)

  abbrev pub Complete : (Class → W) → Observed → Type 0
  Complete left out =
      ReadBack left out
      × ((kind : String) × (kinds out.events ≡ kind_classified ∷ kind ∷ kind_outcome_observed ∷ [])
          × Filed out kind)

  -- A cycle that got to its end rests on the gateway; one that did not says that nothing was
  -- recovered, unless the row of the outcome is what failed.
  abbrev pub Rests : (Class → W) → Observed → Option CycleError → Type 0
  Rests left out none = Complete left out
  Rests left out (some (action_failed e)) = Complete left out
  Rests left out (some (not_recorded kind e)) = (out.recovered ≡ false) ⊎ ReadBack left out
  Rests left out (some (poll_failed e)) = out.recovered ≡ false
  Rests left out (some (read_back_failed e)) = out.recovered ≡ false

  abbrev pub CycleRests : (Class → W) → Cycled W → Type 0
  CycleRests left c = Rests left c.outcome c.err

  -- The world that an action leaves of a state, by the class that it is given.
  abbrev pub left_by : ActionFunc W → AgentVisibleOrder → State W → Class → W
  left_by action order s class = (action s order class).0.world

-- What a cycle rests on, from the state that its poll left: an action on that state, but for rows in
-- the trail, and the world that the action left.
abbrev pub Stands :
    {W : Type 0} → Surface W → ActionFunc W → AgentVisibleOrder → State W → Cycled W → Type 0
Stands {W = W} u action order s c =
    (s0 : State W) × Keeps u s s0 × CycleRests u (left_by u action order s0) c
