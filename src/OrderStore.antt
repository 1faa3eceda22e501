-- ===== src/OrderStore.antt =====
-- internal/store/store.go: the attempt ledger of the retry engine. The lock is left out, since each
-- operation is one step; the clock is the instant that a commit is given.
pub mod Attempts
use rzp_rebound.Prelude.{
  ℕ, String, Bool, true, false, not, ◌&&◌, ◌==◌, if◌then◌else◌, Option, none, some, [], Dict,
  lookup, insert, lookup_or, length, ℤ, pos, ◌+ℤ◌, ltb_ℤ, wrap64,
}
use rzp_rebound.Time.{Instant, zero_time}
use rzp_rebound.Policy.{State, is_notify_action}

pub record OrderState : Type 0 where
  pub order_id : String
  pub attempts : ℤ
  pub last_action_at : Instant
  pub last_notify_at : Instant

pub record Store : Type 0 where
  pub orders : Dict OrderState
  pub keys : Dict Bool
  pub actions : ℤ

abbrev pub new_store : Store
new_store = record { orders = []; keys = []; actions = pos 0 }

abbrev zero_state : String → OrderState
zero_state id = record {
  order_id = id;
  attempts = pos 0;
  last_action_at = zero_time;
  last_notify_at = zero_time;
}

-- s.Order(orderID)
unfoldable pub order : Store → String → OrderState
unfolding lookup_or
order s id = lookup_or (zero_state id) id s.orders

unfoldable pub attempts : Store → String → ℤ
attempts s id = elim (lookup id s.orders) [ none ↦ pos 0 | some st ↦ st.attempts ]

-- s.Keys()
unfoldable pub key_count : Store → ℕ
key_count s = length s.keys

-- The state that the creating accessor returns is put back changed.
abbrev pub put : Store → String → OrderState → Store
put s id st = record s { orders = insert id st s.orders }

unfoldable pub observe : Store → String → ℤ → Store
unfolding insert
observe s id seen =
    let st = order s id in
    put s id (if ltb_ℤ st.attempts seen then record st { attempts = seen } else st)

unfoldable pub increment : ℤ → ℤ
unfolding wrap64 ◌+ℤ◌
increment n = wrap64 (n +ℤ pos 1)

-- s.Snapshot(orderID, key, killSwitchEngaged)
unfoldable pub snapshot : Store → String → String → Bool → State
unfolding lookup_or
snapshot s id key kill_switch_engaged =
    let st = lookup_or (zero_state "") id s.orders in
    record {
      touches_made = pos 0;
      last_touch_at = zero_time;
      last_notify_at = st.last_notify_at;
      actions_this_run = s.actions;
      kill_switch_engaged = kill_switch_engaged;
      idempotency_key_seen = lookup_or false key s.keys;
      attempts_made = st.attempts;
      last_action_at = st.last_action_at;
    }

-- What commit does past the test for a replay; the key is recorded before.
unfoldable pub take_action : Store → String → String → Instant → Store
take_action s id action now =
    let st = record (order s id) { last_action_at = now } in
    put (record s { actions = increment s.actions }) id
      (if is_notify_action action
        then record st { last_notify_at = now }
        else record st { attempts = increment st.attempts })

-- The Boolean is whether the key had been committed already.
unfoldable pub commit : Store → String → String → String → Instant → Store × Bool
unfolding lookup_or insert
commit s id key action now =
    if not (key == "") && lookup_or false key s.keys
    then (s, true)
    else (let keyed = if key == "" then s else record s { keys = insert key true s.keys } in
        (take_action keyed id action now, false))
