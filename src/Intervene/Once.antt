-- ===== src/Intervene/Once.antt =====
-- An action that was accepted under a key is not done again under that key.
use rzp_rebound.Prelude.{
  String, ◌≡◌, refl, sym, ◌∙◌, inl, inr, true, false, eq_iff, none, some, List, [], ◌∷◌, ◌++◌,
  lookup, lookup-insert, Dict, arith, Option-cases, Bool-cases, false≢true,
}
use rzp_rebound.Action.{is_lawful}
use rzp_rebound.RiskItem.{Outcome}
use rzp_rebound.Intervene.{
  Setup, Engine, ApplyArgs, guarded, apply_key, start, dispatched, with_error, seal, finish,
  apply_fresh, apply, apply_all,
}

abbrev pub key_of : ApplyArgs → String
key_of p = apply_key p.ctx p.item p.action

-- What Apply comes to: a refusal, the outcome of a slot that is done, or a dispatch.
pub apply_unlawful :
    (s : Setup) (e : Engine) (p : ApplyArgs)
    → is_lawful p.action ≡ false
    → let done = apply s e p in
      (done.1.outcome.accepted ≡ false) × (done.0.guard ≡ e.guard) × (done.0.made ≡ e.made)
unfolding apply finish start
apply_unlawful s e p h = rw (h, apply) (refl, refl, refl)

pub apply_replayed :
    (s : Setup) (e : Engine) (p : ApplyArgs) (first : Outcome)
    → is_lawful p.action ≡ true
    → lookup (key_of p) e.guard ≡ some first
    → let done = apply s e p in
      (done.1.outcome ≡ first) × (done.0.guard ≡ e.guard) × (done.0.made ≡ e.made)
unfolding apply finish
apply_replayed s e p first h l = rw (h, l, apply) (refl, refl, refl)

pub apply-dispatched :
    (s : Setup) (e : Engine) (p : ApplyArgs)
    → is_lawful p.action ≡ true
    → lookup (key_of p) e.guard ≡ none
    → let done = apply s e p in
      let step = dispatched s e p in
      (done.1.outcome ≡ with_error step)
      × (done.0.guard ≡ seal e.guard (key_of p) (with_error step) p.action)
      × (done.0.made ≡ e.made ++ step.calls)
unfolding apply finish apply_fresh
apply-dispatched s e p h l = rw (h, l, apply) (refl, refl, refl)

seal-lookup :
    (guard : Dict Outcome) (key other action : String) (out first : Outcome)
    → lookup key guard ≡ none
    → lookup other guard ≡ some first
    → lookup other (seal guard key out action) ≡ some first
unfolding seal
seal-lookup guard key other action out first free done =
    ground (arith, eq_iff key other, lookup-insert key other out guard)

-- A slot that is done stays as it is.
apply_keeps :
    (s : Setup) (e : Engine) (p : ApplyArgs) (key : String) (first : Outcome)
    → lookup key e.guard ≡ some first
    → lookup key (apply s e p).0.guard ≡ some first
apply_keeps s e p key first done = elim (Bool-cases (is_lawful p.action)) [
  | inr bad ↦ let (_, same, _) = apply_unlawful s e p bad in rw same done
  | inl ok ↦ elim (Option-cases (lookup (key_of p) e.guard)) [
    | inl free ↦
        let (_, same, _) = apply-dispatched s e p ok free in
        rw same (seal-lookup e.guard (key_of p) key p.action _ first free done)
    | inr (old, there) ↦ let (_, same, _) = apply_replayed s e p old ok there in rw same done
  ]
]

apply_all_keeps :
    (s : Setup) (e : Engine) (ps : List ApplyArgs) (key : String) (first : Outcome)
    → lookup key e.guard ≡ some first
    → lookup key (apply_all s e ps).0.guard ≡ some first
unfolding apply_all
apply_all_keeps s e [] key first done = done
apply_all_keeps s e (p ∷ ps) key first done =
    apply_all_keeps s (apply s e p).0 ps key first (apply_keeps s e p key first done)

sealed-lookup :
    (guard : Dict Outcome) (key action : String) (out : Outcome)
    → out.accepted ≡ true
    → guarded action ≡ true
    → lookup key (seal guard key out action) ≡ some out
unfolding seal
sealed-lookup guard key action out ok g =
    ground (arith, eq_iff key key, lookup-insert key key out guard)

-- An accepted outcome of a guarded action stands in the slot of its key.
apply_seals :
    (s : Setup) (e : Engine) (p : ApplyArgs)
    → (apply s e p).1.outcome.accepted ≡ true
    → guarded p.action ≡ true
    → lookup (key_of p) (apply s e p).0.guard ≡ some (apply s e p).1.outcome
apply_seals s e p ok g = elim (Bool-cases (is_lawful p.action)) [
  | inr bad ↦
      let (refused, _, _) = apply_unlawful s e p bad in absurd (false≢true (sym refused ∙ ok))
  | inl lawful ↦ elim (Option-cases (lookup (key_of p) e.guard)) [
    | inl free ↦
        let (out, guard, _) = apply-dispatched s e p lawful free in
        rw (guard, out) (sealed-lookup e.guard (key_of p) p.action _ (rw out at ok) g)
    | inr (old, there) ↦
        let (out, guard, _) = apply_replayed s e p old lawful there in rw (guard, out) there
  ]
]

-- Once an action that leaves something behind was accepted under a key, any later request of a
-- lawful action with that key, whatever requests came in between, calls nothing and is answered
-- with the first outcome.
pub apply_again :
    (s : Setup) (e : Engine) (p : ApplyArgs) (between : List ApplyArgs) (q : ApplyArgs)
    → (apply s e p).1.outcome.accepted ≡ true
    → guarded p.action ≡ true
    → is_lawful q.action ≡ true
    → key_of q ≡ key_of p
    → let later = (apply_all s (apply s e p).0 between).0 in
      let again = apply s later q in
      (again.1.outcome ≡ (apply s e p).1.outcome) × (again.0.made ≡ later.made)
apply_again s e p between q ok g lawful same =
    let sealed = apply_seals s e p ok g in
    let kept = apply_all_keeps s (apply s e p).0 between (key_of p) _ sealed in
    let (out, _, made) =
      apply_replayed s (apply_all s (apply s e p).0 between).0 q _ lawful (rw same kept) in
    (out, made)
