-- ===== src/RiskRun/Replay.antt =====
-- The gate and the ledger agree on what was done already.
use rzp_rebound.Prelude.{
  String, ◌≡◌, ◌≢◌, refl, ap, ◌∙◌, inl, inr, Bool, true, false, ◌==◌, eq_iff, if◌then◌else◌, Option,
  none, some, List, [], ◌∷◌, ℤ, pos, negsuc, eqb_ℤ, arith, All, lookup_or, lookup-insert, ==_refl,
}
use rzp_rebound.Time.{Instant}
use rzp_rebound.Classify.{unclassified}
use rzp_rebound.RiskItem.{RiskItem}
use rzp_rebound.Policy.{allow, scene, evaluate, normalize_request, normalize_state, idempotency_key}
use rzp_rebound.Policy.Adapter.{Facts, has_signal, request_from_classified}
use rzp_rebound.Policy.Allowed.{evaluate_allow_iff, unreadable_never_allowed}
use rzp_rebound.RiskRun.{
  Ledger, key_seen, state, commit, commit_accepted, class_for, Gate, ask, Trail, Instants, choose,
  Pass, facts_at, process, run,
}
use rzp_rebound.RiskRun.Cap.{choose-Chosen, process-Acts}

same_id : (id : String) → (if id == "" then "" else id) ≡ id
same_id id = ground (arith, eq_iff id "")

same_number : (n : ℤ) → (if eqb_ℤ n (pos 0) then pos 0 else n) ≡ n
same_number (pos n) = ground arith
same_number (negsuc n) = ground arith

-- The key of a decision is the one under which the ledger was asked.
ask_key :
    (g : Gate) (l : Ledger) (now : Instant) (item : RiskItem) (facts : Facts) (action : String)
    → (ask g l now item facts action).idempotency_key
      ≡ idempotency_key g.platform.sha256_hex item.id action facts.touch_no
unfolding ask evaluate scene normalize_request request_from_classified
ask_key g l now item facts action = rw (same_id item.id, same_number facts.touch_no) refl

asked_unseen :
    (g : Gate) (l : Ledger) (now : Instant) (item : RiskItem) (facts : Facts) (action : String)
    → (ask g l now item facts action).verdict ≡ allow
    → key_seen l (idempotency_key g.platform.sha256_hex item.id action facts.touch_no) ≡ false
unfolding ask scene normalize_state state
asked_unseen g l now item facts action v =
    let (_, (replay, _)) = (evaluate_allow_iff _ _ _ _ _).0 v in ground (arith, replay)

pub allowed_unseen :
    (g : Gate) (l : Ledger) (now : Instant) (item : RiskItem) (facts : Facts) (action : String)
    → (ask g l now item facts action).verdict ≡ allow
    → key_seen l (ask g l now item facts action).idempotency_key ≡ false
allowed_unseen g l now item facts action v =
    rw (ask_key g l now item facts action) (asked_unseen g l now item facts action v)

commit_unseen :
    (l : Ledger) (id key action : String) (accepted : Bool) (now : Instant)
    → key_seen l key ≡ false
    → (commit l id key action accepted now).1 ≡ false
unfolding commit
commit_unseen l id key action accepted now unseen = ground arith

process_fresh : (g : Gate) (l : Ledger) (p : Pass) → (process g l p).1 ≡ false
process_fresh g l p = elim (process-Acts g l p) [
  | inl idle ↦ ap (λ done. done.1) idle
  | inr acts ↦
      let c =
        choose-Chosen g l p.clock p.item (facts_at l p) p.trail acts.action acts.key acts.chosen in
      let unseen = allowed_unseen g l c.at p.item (facts_at l p) acts.action c.allows in
      ap (λ done. done.1) acts.committed
      ∙ commit_unseen l p.item.id acts.key acts.action p.accepted p.committed_at
          (ap (key_seen l) c.keyed ∙ unseen)
]

-- No commit of a run is a replay: the gate has refused every action whose key the ledger holds,
-- whatever was run before and whatever the engine accepts.
pub run_fresh : (g : Gate) (l : Ledger) (ps : List Pass) → All (λ r. r ≡ false) (run g l ps).1
unfolding run
run_fresh g l [] = tt
run_fresh g l (p ∷ ps) = (process_fresh g l p, run_fresh g (process g l p).0 ps)

-- An accepted action with a key, committed again under that key, changes nothing and is reported
-- as a replay, whatever the second commit says of the item, the action and the instant.
pub ledger_commit_again :
    (l : Ledger) (id key action : String) (now : Instant) (id' action' : String) (now' : Instant)
    → key ≢ ""
    → let l' = (commit l id key action true now).0 in
      commit l' id' key action' true now' ≡ (l', true)
unfolding commit commit_accepted key_seen lookup_or
ledger_commit_again l id key action now id' action' now' named =
    ground (arith, eq_iff key "", ==_refl key, lookup-insert key key true l.keys)

ask_unreadable :
    (g : Gate) (l : Ledger) (now : Instant) (item : RiskItem) (facts : Facts) (action : String)
    → has_signal item.signal ≡ true
    → class_for item ≡ unclassified
    → (ask g l now item facts action).verdict ≢ allow
unfolding ask request_from_classified
ask_unreadable g l now item facts action = unreadable_never_allowed _ _ _ _ _

-- An item whose failure no table recognises is left alone: the run comes to no action about it,
-- not even to handing it to a person.
pub choose_unreadable :
    (g : Gate) (l : Ledger) (clock : Instants) (item : RiskItem) (facts : Facts) (trail : Trail)
    → has_signal item.signal ≡ true
    → class_for item ≡ unclassified
    → choose g l clock item facts trail ≡ none
choose_unreadable g l clock item facts trail present class =
    go (choose g l clock item facts trail) refl
  where
    go :
        (o : Option (String × String))
        → choose g l clock item facts trail ≡ o
        → choose g l clock item facts trail ≡ none
    go none e = e
    go (some (action, key)) e =
        let c = choose-Chosen g l clock item facts trail action key e in
        absurd (ask_unreadable g l c.at item facts action present class c.allows)
