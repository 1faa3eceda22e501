-- ===== src/Intervene/Rows.antt =====
-- The row that Apply writes says whether anything was called.
use rzp_rebound.Prelude.{
  String, ◌≡◌, ◌≢◌, refl, sym, ap, ◌∙◌, ◌⊎◌, ◌↔◌, inl, inr, Bool, true, false, Option, none, List,
  [], ◌∷◌, ◌++◌, append-nil, lookup, eq_iff, length, length-append, arith, Option-cases, Bool-cases,
  false≢true,
}
use rzp_rebound.Action.{is_lawful}
use rzp_rebound.RiskItem.{Outcome, dedupe_key}
use rzp_rebound.Audit.{
  Row, RecordError, kind_action_skipped, kind_escalation_raised, kind_promise_logged,
  kind_intervention_applied,
}
use rzp_rebound.Audit.Written.{record_event-Written}
use rzp_rebound.Intervene.{
  Setup, Engine, ApplyArgs, Applied, Call, ApplyError, not_recorded, call_errors, apply_key,
  event_kind, event_of, record_apply, start, dispatched, with_error, finish, apply_fresh, apply,
}
use rzp_rebound.Intervene.Warranted.{dispatch-Honest}

append_ne : (xs : List Call) (c : Call) (cs : List Call) → xs ++ c ∷ cs ≢ xs
append_ne xs c cs e =
    let same : length (xs ++ c ∷ cs) ≡ length xs = ap length e in
    let sum = length-append xs (c ∷ cs) in omega (arith, same, sum)

event_kind_fresh :
    (out : Outcome) (attempted : Bool)
    → (event_kind out attempted false ≡ kind_action_skipped) ↔ (attempted ≡ false)
unfolding event_kind
event_kind_fresh out attempted = ground (
  arith,
  eq_iff kind_escalation_raised kind_action_skipped,
  eq_iff kind_promise_logged kind_action_skipped,
  eq_iff kind_intervention_applied kind_action_skipped,
)

-- A row of the item, which is a skipped one exactly when the calls are as they were; or no row and
-- an error that says so, the last one.
abbrev pub Reported : Engine → ApplyArgs → Engine × Applied → Type 0
Reported e p done =
    ((row : Row) × (done.0.recorder.rows ≡ e.recorder.rows ++ row ∷ [])
      × (row.order_id ≡ dedupe_key p.item)
      × ((row.kind ≡ kind_action_skipped) ↔ (done.0.made ≡ e.made)))
    ⊎ ((cause : RecordError) × (errors : List ApplyError) × (done.0.recorder.rows ≡ e.recorder.rows)
        × (done.1.errors ≡ errors ++ not_recorded done.1.outcome.action p.item.id cause ∷ []))

-- A finish after calls that are as many as `attempted` and `replay` say.
finish-Reported :
    (s : Setup) (before e : Engine) (p : ApplyArgs) (out : Outcome) (key : String)
    (attempted replay : Bool) (call_err : Option String)
    → e.recorder ≡ before.recorder
    → (event_kind out attempted replay ≡ kind_action_skipped) ↔ (e.made ≡ before.made)
    → Reported before p (finish s e p out key attempted replay call_err)
unfolding finish record_apply event_of
finish-Reported s before e p out key attempted replay call_err same kinds =
    elim (record_event-Written s.services e.recorder p.recorded p.span
      (event_of p.item out key attempted replay)) [
        | inl (row, rows, order, kind, fine) ↦
            inl (row, rows ∙ ap (λ r. r.rows ++ row ∷ []) same, order, rw (← kind) at kinds)
        | inr (cause, rows, failed) ↦
            inr (cause, call_errors call_err, rows ∙ ap (λ r. r.rows) same, rw failed refl)
      ]

-- A dispatch that calls nothing leaves the calls as they are, and one that calls something adds to
-- them.
dispatched-made :
    (s : Setup) (e : Engine) (p : ApplyArgs)
    → let step = dispatched s e p in (step.attempted ≡ false) ↔ (e.made ++ step.calls ≡ e.made)
unfolding dispatched
dispatched-made s e p = elim (dispatch-Honest s e.made p.ctx p.item p.action (start p)) [
  | inl (idle, none_made) ↦ rw none_made (λ _. append-nil e.made, λ _. idle)
  | inr (live, (c, cs, some_made, _)) ↦
      rw some_made
        (λ idle. absurd (false≢true (sym idle ∙ live)), λ e'. absurd (append_ne e.made c cs e'))
]

-- Every call of Apply either writes one row, of the debt of its item, which is a skipped one
-- exactly when nothing was called, or writes none and says so in the last of its errors.
pub apply-Reported : (s : Setup) (e : Engine) (p : ApplyArgs) → Reported e p (apply s e p)
unfolding apply apply_fresh event_kind
apply-Reported s e p = elim (Bool-cases (is_lawful p.action)) [
  | inr bad ↦
      rw (bad, apply) (finish-Reported s e e p _ "" false false none refl (λ _. refl, λ _. refl))
  | inl ok ↦
      let kinds = event_kind_fresh (with_error (dispatched s e p)) (dispatched s e p).attempted in
      let calls = dispatched-made s e p in
      elim (Option-cases (lookup (apply_key p.ctx p.item p.action) e.guard)) [
        | inr (first, there) ↦
            rw (ok, there, apply)
              (finish-Reported s e e p first _ false true none refl (λ _. refl, λ _. refl))
        | inl free ↦
            rw (ok, free, apply)
              (finish-Reported s e _ p _ _ _ false _ refl
                (λ k. calls.0 (kinds.0 k), λ m. kinds.1 (calls.1 m)))
      ]
]
