-- ===== src/OrderStore/Attempts.antt =====
-- How often an order was attempted, by what was observed and committed.
use rzp_rebound.Prelude.{
  String, ◌≡◌, ◌≢◌, refl, ◌∙◌, Bool, true, false, not, ◌==◌, ◌&&◌, eq_iff, ==_refl, if◌then◌else◌,
  ℤ, max_ℤ, arith, lookup_or, lookup-insert, insert, Dict,
}
use rzp_rebound.Time.{Instant}
use rzp_rebound.Policy.{is_notify_action}
use rzp_rebound.OrderStore.{
  Store, OrderState, put, order, attempts, observe, increment, take_action, commit,
}

order-attempts : (s : Store) (id : String) → (order s id).attempts ≡ attempts s id
unfolding order attempts lookup_or
order-attempts s id = ground arith

attempts-put :
    (s : Store) (id : String) (st : OrderState) (j : String)
    → attempts (put s id st) j ≡ (if id == j then st.attempts else attempts s j)
unfolding attempts
attempts-put s id st j = ground (arith, lookup-insert id j st s.orders)

take_action-attempts :
    (s : Store) (id action : String) (now : Instant) (j : String)
    → attempts (take_action s id action now) j ≡ (
        if id == j && not (is_notify_action action) then increment (attempts s j) else attempts s j)
unfolding take_action attempts
take_action-attempts s id action now j =
    attempts-put s id _ j ∙ ground (arith, eq_iff id j, order-attempts s id)

take_action-actions :
    (s : Store) (id action : String) (now : Instant)
    → (take_action s id action now).actions ≡ increment s.actions
unfolding take_action
take_action-actions s id action now = refl

same_orders :
    (s : Store) (keys : Dict Bool) (j : String)
    → attempts (record s { keys = keys }) j ≡ attempts s j
unfolding attempts
same_orders s keys j = refl

-- An observation raises the count of its order to what was seen and lowers none; the other orders,
-- the keys and the count of actions stand.
pub observe_max :
    (s : Store) (id : String) (seen : ℤ) (j : String)
    → (attempts (observe s id seen) j
        ≡ (if id == j then max_ℤ (attempts s j) seen else attempts s j))
      × ((observe s id seen).keys ≡ s.keys)
      × ((observe s id seen).actions ≡ s.actions)
unfolding observe max_ℤ attempts
observe_max s id seen j =
    (attempts-put s id _ j ∙ ground (arith, eq_iff id j, order-attempts s id), refl, refl)

-- Committing again under a key changes nothing and is reported as a replay, whatever the second
-- commit says of the order, the action and the instant.
pub store_commit_again :
    (s : Store) (id key action : String) (now : Instant) (id' action' : String) (now' : Instant)
    → key ≢ ""
    → let s' = (commit s id key action now).0 in commit s' id' key action' now' ≡ (s', true)
unfolding commit take_action lookup_or
store_commit_again s id key action now id' action' now' named =
    ground (arith, eq_iff key "", ==_refl key, lookup-insert key key true s.keys)

-- A commit that is no replay counts one action, and one attempt on its order unless the action is
-- a notification; the attempts of the other orders stand.
pub commit_counts :
    (s : Store) (id key action : String) (now : Instant) (j : String)
    → (commit s id key action now).1 ≡ false
    → let s' = (commit s id key action now).0 in
      (s'.actions ≡ increment s.actions)
      × (attempts s' j ≡ (
          if id == j && not (is_notify_action action)
          then increment (attempts s j)
          else attempts s j))
commit_counts s id key action now j fresh =
    let keyed = record s { keys = insert key true s.keys } in
    unfold commit in
    ground (
      arith,
      take_action-attempts s id action now j,
      take_action-attempts keyed id action now j,
      take_action-actions s id action now,
      take_action-actions keyed id action now,
      same_orders s (insert key true s.keys) j,
    )
