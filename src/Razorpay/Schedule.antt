-- ===== src/Razorpay/Schedule.antt =====
-- How often a call is sent, after which replies, and how long the client waits in between.
use rzp_rebound.Prelude.{
  ℕ, zero, suc, ◌+◌, ◌^◌, ◌≤◌, ◌<◌, String, ◌≡◌, refl, sym, ap, ◌∙◌, ◌⊎◌, inl, inr, Bool, true,
  false, Option, none, some, List, [], ◌∷◌, ◌++◌, length, All, pos, negsuc, pos_part, ◌≤ℤ◌, ◌<ℤ◌,
  ◌+ℤ◌, wrap64, arith, Option-cases, false≢true,
}
use rzp_rebound.Time.{Duration}
use rzp_rebound.Razorpay.{ApiError, CallError}
use rzp_rebound.Razorpay.Client.{
  Client, ClientOptions, new_client_of, new_client, Wire, Sending, Exchange, Reply, waited,
  redact_err, plain_error,
}
use rzp_rebound.Razorpay.Retry.{
  next_backoff, Reading, Next, finished, again, attempt_once, attempts_from, do_with,
}
use rzp_rebound.Razorpay.Attempt.{
  replies, waits, IsLimited, Retries, EndsTaken, EndsWith, Tells, limited-Tells, replies-append,
  waits-append, End, Attempted, attempt_once-Attempted,
}

Retries-cons : (r : Reply) (rs : List Reply) → IsLimited r → Retries rs → Retries (r ∷ rs)
Retries-cons r [] l h = tt
Retries-cons r (r' ∷ rs) l h = (l, h)

EndsTaken-cons : (r : Reply) (rs : List Reply) → EndsTaken rs → EndsTaken (r ∷ rs)
EndsTaken-cons r [] h = absurd h
EndsTaken-cons r (r' ∷ rs) h = h

EndsWith-cons :
    (P : Reply → Type 0) (r : Reply) (rs : List Reply) → EndsWith P rs → EndsWith P (r ∷ rs)
EndsWith-cons P r [] h = absurd h
EndsWith-cons P r (r' ∷ rs) h = h

-- A wait is at least the first one and at most the greatest.
abbrev pub InRange : Client → Duration → Type 0
InRange c d = (c.base_backoff ≤ℤ d) × (d ≤ℤ c.max_backoff)

-- The settings of a client, as newClient leaves them for waits below 2^62.
pub record IsSettled (c : Client) : Type 0 where
  pub attempts : pos 1 ≤ℤ c.max_attempts
  pub base : pos 1 ≤ℤ c.base_backoff
  pub order : c.base_backoff ≤ℤ c.max_backoff
  pub top : c.max_backoff <ℤ pos (2 ^ 62)

next_backoff-InRange :
    (c : Client) (d : Duration) → IsSettled c → InRange c d → InRange c (next_backoff c d)
unfolding next_backoff wrap64 ◌+ℤ◌
next_backoff-InRange c (pos n) h r = ground (arith, h.base, h.order, h.top)
next_backoff-InRange c (negsuc n) h r = ground (arith, h.base, h.order, h.top)

module _ {A : Type 0} (c : Client) (w : Wire) (req : Sending) (reading : Reading A) where
  -- A call with this many attempts left: it is sent at least once and at most so often, waits
  -- fewer times, each wait in range; every reply but the last is a 429; it fails for an exhausted
  -- budget only if every attempt was answered by a 429, and succeeds only on a 2xx.
  pub record Scheduled (left : ℕ) (ran : List Exchange × (CallError ⊎ A)) : Type 0 where
    pub sent_some : 1 ≤ length (replies ran.0)
    pub sent_most : length (replies ran.0) ≤ left
    pub waited_fewer : length (waits ran.0) < left
    pub in_range : All (InRange c) (waits ran.0)
    pub retried : Retries (replies ran.0)
    pub exhausts :
        (e : CallError)
        → ran.1 ≡ inl e
        → e.exhausted ≡ true
        → (length (replies ran.0) ≡ left) × All IsLimited (replies ran.0)
    pub unmapped : (e : CallError) → ran.1 ≡ inl e → e.not_found ≡ none
    pub told : (e : CallError) → ran.1 ≡ inl e → EndsWith (Tells c w e) (replies ran.0)
    pub takes : (value : A) → ran.1 ≡ inr value → EndsTaken (replies ran.0)

  -- The call ends with this attempt.
  end-Scheduled :
      (max attempt left : ℕ) (done : List Exchange) (result : CallError ⊎ A)
      → c.max_attempts ≡ pos max
      → attempt + left ≡ max
      → Attempted c w req reading attempt (done, finished result)
      → Scheduled (suc left) (done, result)
  end-Scheduled max attempt left done result m sum once = record {
    sent_some = rw once.one (omega arith);
    sent_most = rw once.one (omega arith);
    waited_fewer = rw once.none_waited (omega arith);
    in_range = rw once.none_waited tt;
    retried = rw once.one tt;
    exhausts = λ e is out.
        let ends : End c w req reading attempt once.reply (finished (inl e)) = rw is at once.ends in
        let (limited, last) = ends.1 out in
        let same : left ≡ 0 = ground (arith, m, last, sum) in
        rw (once.one, same) (refl, (limited, tt));
    unmapped = λ e is.
        let ends : End c w req reading attempt once.reply (finished (inl e)) = rw is at once.ends in
        ends.0;
    told = λ e is.
        let ends : End c w req reading attempt once.reply (finished (inl e)) = rw is at once.ends in
        rw once.one ends.2;
    takes = λ value is.
        let ends : End c w req reading attempt once.reply (finished (inr value)) =
          rw is at once.ends in
        rw once.one ends;
  }

  is_exhausted : CallError ⊎ A → Bool
  is_exhausted (inl e) = e.exhausted
  is_exhausted (inr value) = false

  not_found_of : CallError ⊎ A → Option String
  not_found_of (inl e) = e.not_found
  not_found_of (inr value) = none

  answer_of : CallError ⊎ A → Option ApiError
  answer_of (inl e) = e.answer
  answer_of (inr value) = none

  is_value : CallError ⊎ A → Bool
  is_value (inl e) = false
  is_value (inr value) = true

  -- The wait after the attempt fails.
  cut-Scheduled :
      (left : ℕ) (done : List Exchange) (reply : Reply) (backoff : Duration) (text : String)
      → replies done ≡ reply ∷ []
      → waits done ≡ []
      → IsLimited reply
      → InRange c backoff
      → 1 ≤ left
      → Scheduled (suc left) (done ++ waited backoff ∷ [], inl (redact_err c w (plain_error text)))
  unfolding redact_err is_exhausted is_value not_found_of answer_of
  cut-Scheduled left done reply backoff text one still limited range more =
      let sends = replies-append done (waited backoff ∷ []) ∙ ap (λ rs. rs ++ []) one in
      let pauses = waits-append done (waited backoff ∷ []) ∙ ap (λ ds. ds ++ backoff ∷ []) still in
      record {
        sent_some = rw sends (omega arith);
        sent_most = rw sends (omega arith);
        waited_fewer = rw pauses (omega arith);
        in_range = rw pauses (range, tt);
        retried = rw sends tt;
        exhausts = λ e is out. absurd (false≢true (ap is_exhausted is ∙ out));
        unmapped = λ e is. sym (ap not_found_of is);
        told = λ e is. rw sends (limited-Tells c w e reply limited (sym (ap answer_of is)));
        takes = λ value is. absurd (false≢true (ap is_value is));
      }

  -- The attempt is followed by others.
  next-Scheduled :
      (left : ℕ) (done : List Exchange) (reply : Reply) (backoff : Duration)
      (rest : List Exchange × (CallError ⊎ A))
      → replies done ≡ reply ∷ []
      → waits done ≡ []
      → IsLimited reply
      → InRange c backoff
      → Scheduled left rest
      → Scheduled (suc left) (done ++ waited backoff ∷ rest.0, rest.1)
  next-Scheduled left done reply backoff rest one still limited range h =
      let sends =
        replies-append done (waited backoff ∷ rest.0) ∙ ap (λ rs. rs ++ replies rest.0) one in
      let pauses =
        waits-append done (waited backoff ∷ rest.0)
        ∙ ap (λ ds. ds ++ backoff ∷ waits rest.0) still in
      let some = h.sent_some in
      let most = h.sent_most in
      let fewer = h.waited_fewer in
      record {
        sent_some = rw sends (omega arith);
        sent_most = rw sends (omega (arith, most));
        waited_fewer = rw pauses (omega (arith, fewer));
        in_range = rw pauses (range, h.in_range);
        retried = rw sends (Retries-cons reply (replies rest.0) limited h.retried);
        exhausts = λ e is out.
            let (all, each) = h.exhausts e is out in rw sends (ap suc all, (limited, each));
        unmapped = λ e is. h.unmapped e is;
        told = λ e is. rw sends (EndsWith-cons (Tells c w e) reply (replies rest.0) (h.told e is));
        takes = λ value is. rw sends (EndsTaken-cons reply (replies rest.0) (h.takes value is));
      }

  -- One attempt, given what the ones after it do.
  attempt-Scheduled :
      (max left : ℕ) (es : List Exchange) (attempt : ℕ) (backoff : Duration)
      (last : Option ApiError)
      → IsSettled c
      → c.max_attempts ≡ pos max
      → attempt + left ≡ max
      → InRange c backoff
      → ((es' : List Exchange) (next : Duration) (err : ApiError)
          → 1 ≤ left
          → InRange c next
          → Scheduled left (attempts_from c w req reading left es' (suc attempt) next (some err)))
      → Scheduled (suc left) (attempts_from c w req reading (suc left) es attempt backoff last)
  unfolding attempts_from
  attempt-Scheduled max left es attempt backoff last settled m sum range later =
      go (attempt_once c w req reading es attempt).1 refl
        (attempt_once-Attempted c w req reading es attempt)
    where
      done : List Exchange
      done = (attempt_once c w req reading es attempt).0

      go :
          (next : Next A)
          → (attempt_once c w req reading es attempt).1 ≡ next
          → Attempted c w req reading attempt (done, next)
          → Scheduled (suc left) (attempts_from c w req reading (suc left) es attempt backoff last)
      go (finished result) e once =
          rw (e, attempts_from) (end-Scheduled max attempt left done result m sum once)
      go (again err) e once =
          let (limited, more) = once.ends in
          let some_left : 1 ≤ left = ground (arith, m, more, sum) in
          elim (Option-cases (w.wait (es ++ done) backoff)) [
            | inl fine ↦
                rw (e, fine, attempts_from)
                  (next-Scheduled left done once.reply backoff _ once.one once.none_waited limited
                    range
                    (later (es ++ done ++ waited backoff ∷ []) (next_backoff c backoff) err
                      some_left (next_backoff-InRange c backoff settled range)))
            | inr (text, failed) ↦
                rw (e, failed, attempts_from)
                  (cut-Scheduled left done once.reply backoff _ once.one once.none_waited limited
                    range some_left)
          ]

  attempts_from-Scheduled :
      (max left : ℕ) (es : List Exchange) (attempt : ℕ) (backoff : Duration)
      (last : Option ApiError)
      → IsSettled c
      → c.max_attempts ≡ pos max
      → attempt + left ≡ max
      → InRange c backoff
      → Scheduled (suc left) (attempts_from c w req reading (suc left) es attempt backoff last)
  attempts_from-Scheduled max zero es attempt backoff last settled m sum range =
      attempt-Scheduled max zero es attempt backoff last settled m sum range
        (λ es' next err more. absurd (omega (arith, more)))
  attempts_from-Scheduled max (suc left) es attempt backoff last settled m sum range =
      attempt-Scheduled max (suc left) es attempt backoff last settled m sum range
        (λ es' next err more within.
          attempts_from-Scheduled max left es' (suc attempt) next (some err) settled m
            (omega (arith, sum)) within)

  counted-Scheduled :
      (n : ℕ) (es : List Exchange)
      → IsSettled c
      → c.max_attempts ≡ pos n
      → 1 ≤ n
      → Scheduled n (attempts_from c w req reading n es 1 c.base_backoff none)
  counted-Scheduled zero es settled m more = absurd (omega (arith, more))
  counted-Scheduled (suc n) es settled m more =
      let range : InRange c c.base_backoff = (omega arith, settled.order) in
      attempts_from-Scheduled (suc n) n es 1 c.base_backoff none settled m (omega arith) range

  pub settled-Scheduled :
      (es : List Exchange)
      → IsSettled c
      → Scheduled (pos_part c.max_attempts) (do_with c w req reading es)
  unfolding do_with
  settled-Scheduled es settled =
      let same : c.max_attempts ≡ pos (pos_part c.max_attempts) =
        ground (arith, settled.attempts) in
      counted-Scheduled (pos_part c.max_attempts) es settled same (ground (arith, settled.attempts))

new_client_of-IsSettled :
    (base64 : String → String) (path : String) (opts : ClientOptions)
    → opts.base_backoff <ℤ pos (2 ^ 62)
    → opts.max_backoff <ℤ pos (2 ^ 62)
    → IsSettled (new_client_of base64 path opts)
unfolding new_client_of
new_client_of-IsSettled base64 path opts base top = record {
  attempts = ground arith;
  base = ground arith;
  order = ground arith;
  top = ground arith;
}

new_client_built :
    (base64 : String → String) (path : String) (opts : ClientOptions) (c : Client)
    → new_client base64 path opts ≡ some c
    → c ≡ new_client_of base64 path opts
unfolding new_client
new_client_built base64 path opts c e = ground arith

-- A call of a client that was built with waits below 2^62 nanoseconds ends: it is sent at least
-- once and at most as often as the client's settings allow, with fewer waits than that, each of
-- them from the first backoff to the greatest; every reply but the last is a 429. It ends with an
-- exhausted budget only after the greatest number of attempts, all answered by a 429, and with a
-- result only after a 2xx.
pub do_with-Scheduled :
    {A : Type 0} (base64 : String → String) (path : String) (opts : ClientOptions) (c : Client)
    (w : Wire) (req : Sending) (reading : Reading A) (es : List Exchange)
    → new_client base64 path opts ≡ some c
    → opts.base_backoff <ℤ pos (2 ^ 62)
    → opts.max_backoff <ℤ pos (2 ^ 62)
    → Scheduled c w req reading (pos_part c.max_attempts) (do_with c w req reading es)
do_with-Scheduled base64 path opts c w req reading es built base top =
    let settled : IsSettled c =
      rw (new_client_built base64 path opts c built)
        (new_client_of-IsSettled base64 path opts base top) in
    settled-Scheduled c w req reading es settled
