-- ===== src/Razorpay/Retry.antt =====
-- doWith of internal/razorpay/client.go: one API call, sent again only after a 429. The loop is
-- recursion on the attempts that are left, so that it ends by itself.
use rzp_rebound.Prelude.{
  ℕ, zero, suc, String, ◌<>◌, ◌⊎◌, inl, inr, Bool, true, ◌&&◌, ◌==◌, if◌then◌else◌, Option, none,
  some, List, [], ◌∷◌, ◌++◌, ℤ, pos, pos_part, leb_ℤ, ltb_ℤ, eqb_ℤ, ◌+ℤ◌, wrap64, decimal,
}
use rzp_rebound.Time.{Duration}
use rzp_rebound.Razorpay.{ApiError, CallError}
use rzp_rebound.Razorpay.Client.{
  Client, Wire, Sending, Exchange, no_answer, answered, sent, waited, redact_err, plain_error,
  api_error, of_api, capture_response,
}

abbrev retry_budget_exhausted : String
retry_budget_exhausted = "razorpay: retry budget exhausted"

abbrev pub too_many_requests : ℤ
too_many_requests = pos 429

unfoldable pub is_success : ℤ → Bool
is_success status = leb_ℤ (pos 200) status && ltb_ℤ status (pos 300)

-- min(backoff*2, c.maxBackoff)
unfoldable pub next_backoff : Client → Duration → Duration
unfolding wrap64 ◌+ℤ◌
next_backoff c backoff =
    let twice = wrap64 (backoff +ℤ backoff) in
    if ltb_ℤ c.max_backoff twice then c.max_backoff else twice

-- The error of the last attempt.
unfoldable pub exhausted_error : ℕ → ApiError → CallError
unfolding decimal of_api
exhausted_error attempt last = record {
  exhausted = true;
  not_found = none;
  answer = some last;
  text =
      retry_budget_exhausted
      <> (" after " <> (decimal (pos attempt) <> (" attempt(s): " <> (of_api last).text)));
}

-- How a call reads its response: the decoder of its result, with the error's text, and what it
-- answers for a 2xx without a body, where the call takes that for a success.
pub record Reading (A : Type 0) : Type 0 where
  pub decode : String → String ⊎ A
  pub empty_body : Option A
  pub trim_space : String → String

-- What one attempt comes to: the end of the call, or a 429 that may be tried again.
pub data Next (A : Type 0) : Type 0 where
  finished : CallError ⊎ A → Next A
  again : ApiError → Next A

module _ {A : Type 0} (c : Client) (w : Wire) (req : Sending) (reading : Reading A) where
  unfoldable pub decoded : String → CallError ⊎ A
  decoded body = elim (reading.decode body) [
    | inl e ↦ inl (
        redact_err c w
          (plain_error ("razorpay: decode " <> (req.method <> (" " <> (req.path <> (": " <> e)))))))
    | inr value ↦ inr value
  ]

  -- A 2xx, past the capture.
  unfoldable pub read_body : String → CallError ⊎ A
  read_body body = elim reading.empty_body [
    | none ↦ decoded body
    | some value ↦ if reading.trim_space body == "" then inr value else decoded body
  ]

  -- The switch on the status.
  unfoldable pub by_status : ℕ → ℤ → String → Next A
  by_status attempt status body =
      let err = api_error c w req status body in
      if is_success status
      then finished (read_body body)
      else if eqb_ℤ status too_many_requests
      then if eqb_ℤ (pos attempt) c.max_attempts
        then finished (inl (redact_err c w (exhausted_error attempt err)))
        else again err
      else finished (inl (redact_err c w (of_api err)))

  -- The rest of an attempt that was answered.
  unfoldable pub on_answer : List Exchange → ℕ → ℤ → String → List Exchange × Next A
  on_answer es attempt status body =
      let request = sent req (answered status body) in
      let line = capture_response c w (es ++ request ∷ []) req status body in
      elim line.1 [
        | some e ↦ (request ∷ line.0, finished (inl (redact_err c w (plain_error e))))
        | none ↦ (request ∷ line.0, by_status attempt status body)
      ]

  -- The loop's body up to the wait, with what was done in it.
  unfoldable pub attempt_once : List Exchange → ℕ → List Exchange × Next A
  attempt_once es attempt =
      let reply = w.round_trip es req in
      elim reply [
        | no_answer text ↦
            (sent req (no_answer text) ∷ [], finished (inl (redact_err c w (plain_error text))))
        | answered status body ↦ on_answer es attempt status body
      ]

  -- Past the loop, with the last error.
  unfoldable pub no_attempt_left : Option ApiError → CallError ⊎ A
  no_attempt_left none =
      inl (plain_error ("razorpay: " <> (req.method <> (" " <> (req.path <> " made no attempt")))))
  no_attempt_left (some last) = inl (redact_err c w (of_api last))

  -- The loop, from an attempt on, where `left` of them are left.
  unfoldable pub attempts_from :
      ℕ → List Exchange → ℕ → Duration → Option ApiError → List Exchange × (CallError ⊎ A)
  attempts_from zero es attempt backoff last = ([], no_attempt_left last)
  attempts_from (suc left) es attempt backoff last =
      let (done, next) = attempt_once es attempt in
      let before = es ++ done in
      elim next [
        | finished result ↦ (done, result)
        | again err ↦ elim (w.wait before backoff) [
          | some e ↦ (
            done ++ waited backoff ∷ [],
            inl (
                redact_err c w (
                  plain_error (
                    "razorpay: backoff on "
                    <> (req.method <> (" " <> (req.path <> (": " <> e))))))),
          )
          | none ↦
              let rest =
                attempts_from left (before ++ waited backoff ∷ []) (suc attempt)
                  (next_backoff c backoff) (some err) in
              (done ++ waited backoff ∷ rest.0, rest.1)
        ]
      ]

  -- c.doWith, once the body of the request is encoded
  unfoldable pub do_with : List Exchange → List Exchange × (CallError ⊎ A)
  do_with es = attempts_from (pos_part c.max_attempts) es 1 c.base_backoff none
