-- ===== src/RiskRun/Live/Contacts.antt =====
-- How many contacts a run makes with an item, counted in what the engine answered.
use rzp_rebound.Prelude.{
  ℕ, suc, ◌+◌, ◌^◌, ◌<◌, String, ◌≡◌, refl, ap, ◌∙◌, inl, inr, Bool, true, false, ◌&&◌, ◌||◌, ◌==◌,
  eq_iff, if◌then◌else◌, Option, none, some, List, [], ◌∷◌, pos, ◌+ℤ◌, wrap64, ◌≤ℤ◌, ◌<ℤ◌, arith,
  All, lookup, lookup_or, lookup-insert, Bool-cases,
}
use rzp_rebound.Time.{Instant}
use rzp_rebound.RiskItem.{RiskItem, Outcome}
use rzp_rebound.Policy.{allow, is_contact_action}
use rzp_rebound.Policy.Adapter.{Facts}
use rzp_rebound.Policy.Kinds.{is_contact_action-OneOf}
use rzp_rebound.Intervene.{Setup, Engine, apply}
use rzp_rebound.RiskRun.{
  arm_control, Ledger, new_ledger, touches_of, key_seen, increment, commit, commit_accepted, Gate,
  ask, choose,
}
use rzp_rebound.RiskRun.Cap.{cap, cap_range, choose-Chosen, allowed-touches_left}
use rzp_rebound.RiskRun.Replay.{allowed_unseen}
use rzp_rebound.RiskRun.Live.{
  Live, Turn, Done, args_of, live_act, live_facts, live_process, live_run,
}

-- The answer accepts a contact with the item.
abbrev pub is_contact : String → Done → Bool
is_contact id d = (d.outcome.accepted && is_contact_action d.action) && (d.item_id == id)

-- How many of the answers do.
abbrev pub contacts : String → List Done → ℕ
contacts id [] = 0
contacts id (d ∷ ds) = let rest = contacts id ds in if is_contact id d then suc rest else rest

abbrev pub all_contacts : String → List (List Done) → ℕ
all_contacts id [] = 0
all_contacts id (ds ∷ dss) = contacts id ds + all_contacts id dss

-- The ledger counts `made` contacts with each item, none above its cap.
record IsCounted (g : Gate) (source_of : String → String) (made : String → ℕ) (l : Ledger)
    : Type 0 where
  touches : (id : String) → touches_of l id ≡ pos (made id)
  within : (id : String) → pos (made id) ≤ℤ cap g (source_of id)

commit_counts_contact :
    (l : Ledger) (id key action : String) (accepted : Bool) (now : Instant) (j : String)
    → key_seen l key ≡ false
    → touches_of (commit l id key action accepted now).0 j ≡ (
        if (accepted && is_contact_action action) && (id == j)
        then increment (touches_of l j)
        else touches_of l j)
unfolding commit commit_accepted touches_of lookup_or
commit_counts_contact l id key action accepted now j unseen =
    ground (arith, eq_iff id j, lookup-insert id j (increment (touches_of l id)) l.touches)

increment_pos : (n : ℕ) → suc n < 2 ^ 63 → increment (pos n) ≡ pos (suc n)
unfolding increment wrap64 ◌+ℤ◌
increment_pos n h = ground arith

-- One item's count after a commit under a key that was not seen, where an allowed contact has a
-- touch left.
commit_counted :
    (g : Gate) (l : Ledger) (now : Instant) (item : RiskItem) (facts : Facts)
    (action key source : String) (out : Outcome) (at : Instant) (j : String) (n : ℕ)
    → g.cfg.max_touches_per_item <ℤ pos (2 ^ 63)
    → (item.id ≡ j → item.source ≡ source)
    → (ask g l now item facts action).verdict ≡ allow
    → key_seen l key ≡ false
    → touches_of l j ≡ pos n
    → pos n ≤ℤ cap g source
    → let d : Done = record { item_id = item.id; action = action; outcome = out } in
      (touches_of (commit l item.id key action out.accepted at).0 j ≡ pos (n + contacts j (d ∷ [])))
      × (pos (n + contacts j (d ∷ [])) ≤ℤ cap g source)
commit_counted g l now item facts action key source out at j n range owner v unseen count within =
    let step = commit_counts_contact l item.id key action out.accepted at j unseen in
    elim (Bool-cases ((out.accepted && is_contact_action action) && (item.id == j))) [
      | inr idle ↦ ground (arith, step, idle, count, within)
      | inl live ↦
          let contact : is_contact_action action ≡ true = ground arith in
          let same : item.id ≡ j = ground (arith, eq_iff item.id j) in
          let left =
            allowed-touches_left g l now item facts action v
              ((is_contact_action-OneOf action).0 contact) in
          let below : pos n <ℤ cap g source = rw (same, owner same, count) at left in
          let (_, top) = cap_range g source range in
          let more = increment_pos n (ground arith) in
          ground (arith, step, live, count, more, below)
    ]

same-IsCounted :
    (g : Gate) (source_of : String → String) (made made' : String → ℕ) (l : Ledger)
    → ((id : String) → made' id ≡ made id)
    → IsCounted g source_of made l
    → IsCounted g source_of made' l
same-IsCounted g source_of made made' l same h = record {
  touches = λ id. rw (same id) (h.touches id);
  within = λ id. rw (same id) (h.within id);
}

-- A turn that puts nothing to the engine.
idle-IsCounted :
    (g : Gate) (source_of : String → String) (made : String → ℕ) (l : Ledger)
    → IsCounted g source_of made l
    → IsCounted g source_of (λ id. made id + contacts id []) l
idle-IsCounted g source_of made l h = same-IsCounted g source_of made _ l (λ id. omega arith) h

act-IsCounted :
    (g : Gate) (s : Setup) (source_of : String → String) (made : String → ℕ) (w : Live) (t : Turn)
    (o : Option (String × String))
    → g.cfg.max_touches_per_item <ℤ pos (2 ^ 63)
    → t.item.source ≡ source_of t.item.id
    → choose g w.ledger t.clock t.item (live_facts w.ledger t) t.trail ≡ o
    → IsCounted g source_of made w.ledger
    → let turned = live_act s w t o in
      IsCounted g source_of (λ id. made id + contacts id turned.1) turned.0.ledger
unfolding live_act
act-IsCounted g s source_of made w t none range owner e h =
    idle-IsCounted g source_of made w.ledger h
act-IsCounted g s source_of made w t (some (action, key)) range owner e h =
    let facts = live_facts w.ledger t in
    let c = choose-Chosen g w.ledger t.clock t.item facts t.trail action key e in
    let fresh : key_seen w.ledger key ≡ false =
      ap (key_seen w.ledger) c.keyed
      ∙ allowed_unseen g w.ledger c.at t.item facts action c.allows in
    let out = (apply s w.engine (args_of t action key)).1.outcome in
    let counted = λ (id : String).
      commit_counted g w.ledger c.at t.item facts action key (source_of id) out t.committed_at id
        (made id) range (λ same. owner ∙ ap source_of same) c.allows fresh (h.touches id)
        (h.within id) in
    elim (Bool-cases (t.arm == arm_control || t.dry_run)) [
      | inl idle ↦ rw (idle, live_act) (idle-IsCounted g source_of made w.ledger h)
      | inr live ↦
          rw (live, live_act)
            (record { touches = λ id. (counted id).0; within = λ id. (counted id).1 })
    ]

run-IsCounted :
    (g : Gate) (s : Setup) (source_of : String → String) (made : String → ℕ) (w : Live)
    (ts : List Turn)
    → g.cfg.max_touches_per_item <ℤ pos (2 ^ 63)
    → All (λ t. t.item.source ≡ source_of t.item.id) ts
    → IsCounted g source_of made w.ledger
    → let ran = live_run g s w ts in
      IsCounted g source_of (λ id. made id + all_contacts id ran.1) ran.0.ledger
unfolding live_run live_process
run-IsCounted g s source_of made w [] range owners h = idle-IsCounted g source_of made w.ledger h
run-IsCounted g s source_of made w (t ∷ ts) range owners h =
    let turned = live_process g s w t in
    let next = act-IsCounted g s source_of made w t _ range owners.0 refl h in
    let rest =
      run-IsCounted g s source_of (λ id. made id + contacts id turned.1) turned.0 ts range owners.1
        next in
    same-IsCounted g source_of _ _ _ (λ (id : String). omega (arith)) rest

new_ledger-IsCounted :
    (g : Gate) (source_of : String → String)
    → g.cfg.max_touches_per_item <ℤ pos (2 ^ 63)
    → IsCounted g source_of (λ id. 0) new_ledger
unfolding touches_of lookup_or lookup
new_ledger-IsCounted g source_of range = record {
  touches = λ id. refl;
  within = λ id. (cap_range g (source_of id) range).0;
}

-- However long a run and whatever its engine and the gateway behind it answer: the contacts with an
-- item that the engine accepted are no more than the source of the item allows. The run starts with
-- a new ledger; an item's id is taken to determine its source, and the cap of the settings to be an
-- int64.
pub live_run_contacts :
    (g : Gate) (s : Setup) (source_of : String → String) (e : Engine) (ts : List Turn) (id : String)
    → g.cfg.max_touches_per_item <ℤ pos (2 ^ 63)
    → All (λ t. t.item.source ≡ source_of t.item.id) ts
    → let ran = live_run g s (record { ledger = new_ledger; engine = e }) ts in
      pos (all_contacts id ran.1) ≤ℤ cap g (source_of id)
live_run_contacts g s source_of e ts id range owners =
    let start : IsCounted g source_of (λ id'. 0) new_ledger =
      new_ledger-IsCounted g source_of range in
    let end =
      run-IsCounted g s source_of (λ id'. 0) (record { ledger = new_ledger; engine = e }) ts range
        owners start in
    let counted = end.within id in omega (arith, counted)
