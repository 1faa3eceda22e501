-- ===== src/Razorpay/Attempt.antt =====
-- What one attempt of a call does: it sends once, and what it comes to says what the reply was.
use rzp_rebound.Prelude.{
  ℕ, String, ◌≡◌, refl, ap, ◌⊎◌, inl, inr, true, false, ◌==◌, none, List, [], ◌∷◌, ◌++◌, ℤ, pos,
  eqb_ℤ, arith, Option-cases, Bool-cases, false≢true, some,
}
use rzp_rebound.Time.{Duration}
use rzp_rebound.Audit.{redact_value}
use rzp_rebound.Razorpay.{ApiError, CallError}
use rzp_rebound.Razorpay.Client.{
  redact, Client, Wire, Sending, Exchange, Reply, no_answer, answered, sent, captured, waited,
  redact_err, api_error, of_api, capture_response,
}
use rzp_rebound.Razorpay.Retry.{
  too_many_requests, is_success, exhausted_error, Reading, Next, finished, again, decoded,
  read_body, by_status, on_answer, attempt_once,
}

abbrev pub replies : List Exchange → List Reply
replies [] = []
replies (sent req reply ∷ es) = reply ∷ replies es
replies (captured line ∷ es) = replies es
replies (waited d ∷ es) = replies es

abbrev pub waits : List Exchange → List Duration
waits [] = []
waits (sent req reply ∷ es) = waits es
waits (captured line ∷ es) = waits es
waits (waited d ∷ es) = d ∷ waits es

abbrev pub IsLimited : Reply → Type 0
IsLimited (no_answer text) = ⊥
IsLimited (answered status body) = status ≡ too_many_requests

abbrev pub IsTaken : Reply → Type 0
IsTaken (no_answer text) = ⊥
IsTaken (answered status body) = is_success status ≡ true

-- The statuses under which a reply may say that there is no such resource.
abbrev pub IsRefused : ℤ → Type 0
IsRefused status = (status ≡ pos 404) ⊎ (status ≡ pos 400)

-- The last of the replies is such.
abbrev pub EndsWith : (Reply → Type 0) → List Reply → Type 0
EndsWith P [] = ⊥
EndsWith P (r ∷ []) = P r
EndsWith P (r ∷ r' ∷ rs) = EndsWith P (r' ∷ rs)

-- What an error carries of the reply: its status, and its description without what is secret. It
-- carries nothing of a reply that was not refused, or that a capture failed on.
abbrev pub Tells : Client → Wire → CallError → Reply → Type 0
Tells c w e (no_answer text) = e.answer ≡ none
Tells c w e (answered status body) =
    ((e.answer ≡ none) × (c.capturing ≡ false → ¬ IsRefused status))
    ⊎ ((api : ApiError) × (e.answer ≡ some api)
        × (api.status_code ≡ status)
        × (api.description ≡ redact_value w.services (redact c w (w.envelope body).0)))

-- An error that carries nothing says so of a 429.
pub limited-Tells :
    (c : Client) (w : Wire) (e : CallError) (r : Reply)
    → IsLimited r
    → e.answer ≡ none
    → Tells c w e r
limited-Tells c w e (no_answer text) limited silent = absurd limited
limited-Tells c w e (answered status body) limited silent =
    inl (silent, λ plain refused. ground (arith, limited, refused))

taken_apart : (status : ℤ) → is_success status ≡ true → ¬ IsRefused status
unfolding is_success
taken_apart status taken refused = ground (arith, taken, refused)

-- Every reply but the last is a 429.
abbrev pub Retries : List Reply → Type 0
Retries [] = ⊥
Retries (r ∷ []) = Unit
Retries (r ∷ r' ∷ rs) = IsLimited r × Retries (r' ∷ rs)

-- The last reply is a 2xx.
abbrev pub EndsTaken : List Reply → Type 0
EndsTaken [] = ⊥
EndsTaken (r ∷ []) = IsTaken r
EndsTaken (r ∷ r' ∷ rs) = EndsTaken (r' ∷ rs)

pub replies-append : (es fs : List Exchange) → replies (es ++ fs) ≡ replies es ++ replies fs
replies-append [] fs = refl
replies-append (sent req reply ∷ es) fs = ap (λ rs. reply ∷ rs) (replies-append es fs)
replies-append (captured line ∷ es) fs = replies-append es fs
replies-append (waited d ∷ es) fs = replies-append es fs

pub waits-append : (es fs : List Exchange) → waits (es ++ fs) ≡ waits es ++ waits fs
waits-append [] fs = refl
waits-append (sent req reply ∷ es) fs = waits-append es fs
waits-append (captured line ∷ es) fs = waits-append es fs
waits-append (waited d ∷ es) fs = ap (λ ds. d ∷ ds) (waits-append es fs)

-- A client that captures nothing fails at no capture.
capture_idle :
    (c : Client) (w : Wire) (es : List Exchange) (req : Sending) (status : ℤ) (body e : String)
    → (capture_response c w es req status body).1 ≡ some e
    → c.capturing ≡ false
    → ⊥
unfolding capture_response
capture_idle c w es req status body e failed idle = ground (arith, failed, idle)

-- A capture sends nothing and waits for nothing.
capture_quiet :
    (c : Client) (w : Wire) (es : List Exchange) (req : Sending) (status : ℤ) (body : String)
    → let line = capture_response c w es req status body in
      (replies line.0 ≡ []) × (waits line.0 ≡ [])
unfolding capture_response
capture_quiet c w es req status body = ground arith

module _ {A : Type 0} (c : Client) (w : Wire) (req : Sending) (reading : Reading A) where
  -- What the end of an attempt says of its reply.
  abbrev pub End : ℕ → Reply → Next A → Type 0
  End attempt r (finished (inl e)) =
      (e.not_found ≡ none)
      × (e.exhausted ≡ true → IsLimited r × (pos attempt ≡ c.max_attempts))
      × Tells c w e r
  End attempt r (finished (inr value)) = IsTaken r
  End attempt r (again err) = IsLimited r × (eqb_ℤ (pos attempt) c.max_attempts ≡ false)

  decoded-End :
      (attempt : ℕ) (status : ℤ) (body : String)
      → is_success status ≡ true
      → End attempt (answered status body) (finished (decoded c w req reading body))
  unfolding decoded redact_err
  decoded-End attempt status body taken = go (reading.decode body) refl
    where
      go :
          (d : String ⊎ A)
          → reading.decode body ≡ d
          → End attempt (answered status body) (finished (decoded c w req reading body))
      go (inl e) d =
          rw (d, decoded)
            (refl, λ h. absurd (false≢true h), inl (refl, λ plain. taken_apart status taken))
      go (inr value) d = rw (d, decoded) taken

  read_body-End :
      (attempt : ℕ) (status : ℤ) (body : String)
      → is_success status ≡ true
      → End attempt (answered status body) (finished (read_body c w req reading body))
  unfolding read_body
  read_body-End attempt status body taken =
      let read = decoded-End attempt status body taken in
      elim (Option-cases reading.empty_body) [
        | inl strict ↦ rw (strict, read_body) read
        | inr (value, lax) ↦ elim (Bool-cases (reading.trim_space body == "")) [
          | inl blank ↦ rw (lax, blank, read_body) taken
          | inr full ↦ rw (lax, full, read_body) read
        ]
      ]

  by_status_cases :
      (attempt : ℕ) (status : ℤ) (body : String)
      → let next = by_status c w req reading attempt status body in
        let err = api_error c w req status body in
        ((is_success status ≡ true) × (next ≡ finished (read_body c w req reading body)))
        ⊎ ((status ≡ too_many_requests)
            × (pos attempt ≡ c.max_attempts)
            × (next ≡ finished (inl (redact_err c w (exhausted_error attempt err)))))
        ⊎ ((status ≡ too_many_requests)
            × (eqb_ℤ (pos attempt) c.max_attempts ≡ false)
            × (next ≡ again err))
        ⊎ (next ≡ finished (inl (redact_err c w (of_api err))))
  unfolding by_status
  by_status_cases attempt status body = ground arith

  by_status-End :
      (attempt : ℕ) (status : ℤ) (body : String)
      → End attempt (answered status body) (by_status c w req reading attempt status body)
  unfolding redact_err exhausted_error of_api api_error
  by_status-End attempt status body = elim (by_status_cases attempt status body) [
    | inl (taken, e) ↦ rw e (read_body-End attempt status body taken)
    | inr (inl (limited, last, e)) ↦ rw e (refl, λ h. (limited, last), inr (_, refl, refl, refl))
    | inr (inr (inl (limited, more, e))) ↦ rw e (limited, more)
    | inr (inr (inr e)) ↦ rw e (refl, λ h. absurd (false≢true h), inr (_, refl, refl, refl))
  ]

  -- An attempt sends once and does not wait.
  pub record Attempted (attempt : ℕ) (ran : List Exchange × Next A) : Type 0 where
    pub reply : Reply
    pub one : replies ran.0 ≡ reply ∷ []
    pub none_waited : waits ran.0 ≡ []
    pub ends : End attempt reply ran.1

  on_answer-Attempted :
      (es : List Exchange) (attempt : ℕ) (status : ℤ) (body : String)
      → Attempted attempt (on_answer c w req reading es attempt status body)
  unfolding on_answer redact_err
  on_answer-Attempted es attempt status body =
      let (silent, still) =
        capture_quiet c w (es ++ sent req (answered status body) ∷ []) req status body in
      elim (Option-cases
        (capture_response c w (es ++ sent req (answered status body) ∷ []) req status body).1) [
          | inl fine ↦
              rw (fine, on_answer)
                (record {
                  reply = answered status body;
                  one = ap (λ rs. answered status body ∷ rs) silent;
                  none_waited = still;
                  ends = by_status-End attempt status body;
                })
          | inr (e, failed) ↦
              rw (failed, on_answer)
                (record {
                  reply = answered status body;
                  one = ap (λ rs. answered status body ∷ rs) silent;
                  none_waited = still;
                  ends = (
                    refl,
                    λ h. absurd (false≢true h),
                    inl (refl, λ idle. absurd (capture_idle c w _ req status body e failed idle)),
                  );
                })
        ]

  pub attempt_once-Attempted :
      (es : List Exchange) (attempt : ℕ)
      → Attempted attempt (attempt_once c w req reading es attempt)
  unfolding attempt_once redact_err
  attempt_once-Attempted es attempt = go (w.round_trip es req) refl
    where
      go :
          (r : Reply)
          → w.round_trip es req ≡ r
          → Attempted attempt (attempt_once c w req reading es attempt)
      go (no_answer text) e =
          rw (e, attempt_once)
            (record {
              reply = no_answer text;
              one = refl;
              none_waited = refl;
              ends = (refl, λ h. absurd (false≢true h), refl);
            })
      go (answered status body) e =
          rw (e, attempt_once) (on_answer-Attempted es attempt status body)
