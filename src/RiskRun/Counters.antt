-- ===== src/RiskRun/Counters.antt =====
-- internal/riskrun/ledger.go: what one run knows about the items that it has touched. The lock is
-- left out, since each operation is one step; counters are Go ints, which wrap.
use rzp_rebound.Prelude.{
  String, Bool, true, false, not, ◌&&◌, ◌==◌, if◌then◌else◌, [], Dict, insert, lookup_or, ℤ, pos,
  ◌+ℤ◌, wrap64,
}
use rzp_rebound.Time.{Instant, zero_time}
use rzp_rebound.Policy.{State, is_contact_action, is_notify_action}

pub record Ledger : Type 0 where
  pub touches : Dict ℤ
  pub last_touch : Dict Instant
  pub keys : Dict Bool
  pub last_notify : Instant
  pub actions : ℤ

abbrev pub new_ledger : Ledger
new_ledger = record {
  touches = [];
  last_touch = [];
  keys = [];
  last_notify = zero_time;
  actions = pos 0;
}

-- l.touches[riskItemID]
unfoldable pub touches_of : Ledger → String → ℤ
unfolding lookup_or
touches_of l id = lookup_or (pos 0) id l.touches

-- l.keys[key]
unfoldable pub key_seen : Ledger → String → Bool
unfolding lookup_or
key_seen l key = lookup_or false key l.keys

unfoldable pub increment : ℤ → ℤ
unfolding wrap64 ◌+ℤ◌
increment n = wrap64 (n +ℤ pos 1)

unfoldable pub touch_no : Ledger → String → ℤ
touch_no l id = increment (touches_of l id)

unfoldable pub state : Ledger → String → String → Bool → State
state l id key kill_switch_engaged = record {
  touches_made = touches_of l id;
  last_touch_at = lookup_or zero_time id l.last_touch;
  last_notify_at = l.last_notify;
  actions_this_run = l.actions;
  kill_switch_engaged = kill_switch_engaged;
  idempotency_key_seen = key_seen l key;
  attempts_made = pos 0;
  last_action_at = zero_time;
}

-- The part of commit that an accepted action reaches, after the count of actions.
unfoldable pub commit_accepted : Ledger → String → String → String → Instant → Ledger
commit_accepted l id key action now = record l {
  keys = if key == "" then l.keys else insert key true l.keys;
  touches =
      if is_contact_action action
      then insert id (increment (touches_of l id)) l.touches
      else l.touches;
  last_touch = if is_contact_action action then insert id now l.last_touch else l.last_touch;
  last_notify = if is_notify_action action then now else l.last_notify;
}

-- The Boolean is whether the key had been committed already.
unfoldable pub commit : Ledger → String → String → String → Bool → Instant → Ledger × Bool
commit l id key action accepted now =
    if accepted && not (key == "") && key_seen l key
    then (l, true)
    else (let counted = record l { actions = increment l.actions } in
        if not accepted
        then (counted, false)
        else (commit_accepted counted id key action now, false))
