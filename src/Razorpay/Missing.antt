-- ===== src/Razorpay/Missing.antt =====
-- When a call of the client says that a resource is not there, and what the gateway had replied.
use rzp_rebound.Prelude.{
  String, ◌<>◌, ◌≡◌, refl, sym, ap, ◌∙◌, ◌⊎◌, ◌↔◌, inl, inr, Bool, true, false, ◌==◌, eq_iff,
  Option, none, some, List, [], ◌∷◌, pos, arith, Option-cases, Bool-cases, false≢true, ne-of_==,
}
use rzp_rebound.Razorpay.{ApiError, CallError}
use rzp_rebound.Audit.{redact_value}
use rzp_rebound.Razorpay.Client.{Client, Wire, Exchange, Reply, no_answer, answered, redact}
use rzp_rebound.Razorpay.Attempt.{replies, EndsWith, Tells}
use rzp_rebound.Razorpay.Schedule.{IsSettled}
use rzp_rebound.Razorpay.Codec.{Codec, Result, is_missing, map_not_found, mapped}
use rzp_rebound.Razorpay.Endpoints.{send, on_resource}
use rzp_rebound.Razorpay.Receipts.{send-Scheduled}

is_failure : {A : Type 0} → CallError ⊎ A → Bool
is_failure (inl e) = true
is_failure (inr value) = false

not_found_of : {A : Type 0} → CallError ⊎ A → Option String
not_found_of (inl e) = e.not_found
not_found_of (inr value) = none

none≢some : {A : Type 0} {a : A} → none ≡ some a → ⊥
none≢some {A = A} e =
    absurd (false≢true (ap (λ (o : Option A). elim o [ none ↦ false | some a' ↦ true ]) e))

answer_of : {A : Type 0} → CallError ⊎ A → Option ApiError
answer_of (inl e) = e.answer
answer_of (inr value) = none

-- The gateway's answer says that the resource is not there: a 404, or a 400 with that description.
abbrev pub SaysMissing : Option ApiError → Type 0
SaysMissing none = ⊥
SaysMissing (some api) =
    (api.status_code ≡ pos 404)
    ⊎ ((api.status_code ≡ pos 400) × (api.description ≡ "The id provided does not exist"))

is_missing_iff : (api : ApiError) → (is_missing api ≡ true) ↔ SaysMissing (some api)
unfolding is_missing
is_missing_iff api = ground (arith, eq_iff api.description "The id provided does not exist")

map_not_found_iff :
    (e : CallError) (sentinel id : String)
    → e.not_found ≡ none
    → ((map_not_found e sentinel id).not_found ≡ some sentinel)
      ↔ SaysMissing (map_not_found e sentinel id).answer
unfolding map_not_found
map_not_found_iff e sentinel id clean = elim (Option-cases e.answer) [
  | inl silent ↦
      rw (silent, map_not_found)
        ((λ found. absurd (none≢some (sym clean ∙ found))), (λ says. absurd (rw silent at says)))
  | inr (api, is) ↦ elim (Bool-cases (is_missing api)) [
    | inl missing ↦
        rw (is, missing, map_not_found)
          ((λ found. rw is ((is_missing_iff api).0 missing)), (λ says. refl))
    | inr there ↦
        rw (is, there, map_not_found)
          (
            (λ found. absurd (none≢some (sym clean ∙ found))),
            (λ says. absurd (false≢true (sym there ∙ (is_missing_iff api).1 (rw is at says)))),
          )
  ]
]

-- The error of a call that was sent is the mapped one of the client.
mapped-inv :
    {A : Type 0} (sentinel id : String) (res : Result A) (done : List Exchange) (e : CallError)
    → mapped sentinel id res ≡ (done, inl e)
    → (raw : CallError) × (res.1 ≡ inl raw)
      × (res.0 ≡ done)
      × (not_found_of {A = A} (inl (map_not_found raw sentinel id)) ≡ e.not_found)
      × (answer_of {A = A} (inl (map_not_found raw sentinel id)) ≡ e.answer)
unfolding not_found_of answer_of is_failure
mapped-inv sentinel id (d, inl raw) done e is =
    (raw, refl, ap (λ x. x.0) is, ap (λ x. not_found_of x.1) is, ap (λ x. answer_of x.1) is)
mapped-inv sentinel id (d, inr value) done e is = absurd (false≢true (ap (λ x. is_failure x.1) is))

-- The reply says that the resource is not there: a 404, or a 400 with that description.
abbrev pub IsMissing : Client → Wire → Reply → Type 0
IsMissing c w (no_answer text) = ⊥
IsMissing c w (answered status body) =
    (status ≡ pos 404)
    ⊎ ((status ≡ pos 400)
        × (redact_value w.services (redact c w (w.envelope body).0)
            ≡ "The id provided does not exist"))

Tells-IsMissing :
    (c : Client) (w : Wire) (e : CallError) (r : Reply)
    → SaysMissing e.answer
    → Tells c w e r
    → IsMissing c w r
Tells-IsMissing c w e (no_answer text) says silent = absurd (rw silent at says)
Tells-IsMissing c w e (answered status body) says (inl (silent, plain)) = absurd (rw silent at says)
Tells-IsMissing c w e (answered status body) says (inr (api, is, code, text)) =
    let said : SaysMissing (some api) = rw is at says in rw (← code, ← text) said

IsMissing-SaysMissing :
    (c : Client) (w : Wire) (e : CallError) (r : Reply)
    → c.capturing ≡ false
    → Tells c w e r
    → IsMissing c w r
    → SaysMissing e.answer
IsMissing-SaysMissing c w e (no_answer text) idle silent missing = absurd missing
IsMissing-SaysMissing c w e (answered status body) idle (inl (silent, apart)) missing =
    absurd (apart idle (elim missing [ inl code ↦ inl code | inr (code, text) ↦ inr code ]))
IsMissing-SaysMissing c w e (answered status body) idle (inr (api, is, code, text)) missing =
    rw (is, code, text) missing

EndsWith-map :
    (P Q : Reply → Type 0) (rs : List Reply)
    → ((r : Reply) → P r → Q r)
    → EndsWith P rs
    → EndsWith Q rs
EndsWith-map P Q [] f h = absurd h
EndsWith-map P Q (r ∷ []) f h = f r h
EndsWith-map P Q (r ∷ r' ∷ rs) f h = EndsWith-map P Q (r' ∷ rs) f h

-- The last reply is both.
EndsWith-both :
    (P Q : Reply → Type 0) (rs : List Reply)
    → EndsWith P rs
    → EndsWith Q rs
    → (r : Reply) × P r × Q r
EndsWith-both P Q [] h k = absurd h
EndsWith-both P Q (r ∷ []) h k = (r, h, k)
EndsWith-both P Q (r ∷ r' ∷ rs) h k = EndsWith-both P Q (r' ∷ rs) h k

map_not_found-answer :
    (e : CallError) (sentinel id : String) → (map_not_found e sentinel id).answer ≡ e.answer
unfolding map_not_found
map_not_found-answer e sentinel id = ground arith

-- A call about one resource fails with its not-found error when no id is given, and otherwise only
-- when the last reply of the gateway was a 404, or a 400 whose description says, without what is
-- secret in it, that the id does not exist. A client that captures no responses fails with that
-- error after every such reply.
pub on_resource-IsMissing :
    {A : Type 0} (c : Client) (w : Wire) (k : Codec) (es : List Exchange)
    (method base rest sentinel noun id : String) (decode : String → String ⊎ A)
    (done : List Exchange) (e : CallError)
    → IsSettled c
    → on_resource c w k es method base rest sentinel noun id decode ≡ (done, inl e)
    → (id ≡ "" → e.not_found ≡ some sentinel)
      × (e.not_found ≡ some sentinel → (id ≡ "") ⊎ EndsWith (IsMissing c w) (replies done))
      × (c.capturing ≡ false
          → EndsWith (IsMissing c w) (replies done)
          → e.not_found ≡ some sentinel)
unfolding on_resource not_found_of answer_of
on_resource-IsMissing {A = A} c w k es method base rest sentinel noun id decode done e settled is =
    elim (Bool-cases (id == "")) [
      | inl empty ↦
          let found = ap (λ x. not_found_of x.1) (rw (empty, on_resource) at is) in
          (λ none_given. sym found, λ h. inl ((eq_iff id "").0 empty), λ idle h. sym found)
      | inr named ↦
          let path = base <> ("/" <> (k.path_escape id <> rest)) in
          let (raw, failed, same, found, answer) =
            mapped-inv sentinel id (send c w k es method path none decode none) done e
              (rw (named, on_resource) at is) in
          let schedule = send-Scheduled c w k es method path decode none settled in
          let iff = map_not_found_iff raw sentinel id (schedule.unmapped raw failed) in
          let told : EndsWith (Tells c w raw) (replies done) =
            rw same at (schedule.told raw failed) in
          let keeps = map_not_found-answer raw sentinel id in
          (
            λ empty. absurd (ne-of_== id "" named empty),
            λ h.
                let says : SaysMissing raw.answer = rw keeps at (iff.0 (found ∙ h)) in
                inr (EndsWith-map _ _ (replies done) (λ r. Tells-IsMissing c w raw r says) told),
            λ idle ends.
                let (r, tells, missing) = EndsWith-both _ _ (replies done) told ends in
                sym found ∙ iff.1 (rw keeps (IsMissing-SaysMissing c w raw r idle tells missing)),
          )
    ]
