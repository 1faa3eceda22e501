-- ===== src/Razorpay/Receipts.antt =====
-- What a receipt stands for.
use rzp_rebound.Prelude.{
  String, ◌<>◌, ◌≡◌, ◌≢◌, refl, sym, ap, ◌⊎◌, inl, inr, Bool, true, false, not, ◌&&◌, ◌==◌, eq_iff,
  Option, none, some, List, [], ◌∷◌, length, ◌≤◌, pos_part, arith, OneOf, Bool-cases, false≢true,
  ne-of_==,
}
use rzp_rebound.Razorpay.{CallError, NotifyReceipt, medium_sms, medium_email}
use rzp_rebound.Razorpay.Client.{Client, Wire, Sending, Exchange}
use rzp_rebound.Razorpay.Retry.{Reading}
use rzp_rebound.Razorpay.Attempt.{replies, EndsTaken}
use rzp_rebound.Razorpay.Schedule.{IsSettled, Scheduled, settled-Scheduled}
use rzp_rebound.Razorpay.Codec.{method_post, Codec, Result, mapped}
use rzp_rebound.Razorpay.Endpoints.{send, receipt_of, notify_by}

pub succeeds : {A : Type 0} → CallError ⊎ A → Bool
succeeds (inl e) = false
succeeds (inr value) = true

link_of : CallError ⊎ NotifyReceipt → String
link_of (inl e) = ""
link_of (inr r) = r.link_id

medium_of : CallError ⊎ NotifyReceipt → String
medium_of (inl e) = ""
medium_of (inr r) = r.medium

-- A receipt comes of a call that answered.
receipt_of-inv :
    (c : Client) (w : Wire) (k : Codec) (es : List Exchange) (sentinel id medium : String)
    (res : Result (Option Bool)) (done : List Exchange) (r : NotifyReceipt)
    → receipt_of c w k es id medium (mapped sentinel id res) ≡ (done, inr r)
    → ((success : Option Bool) × (res.1 ≡ inr success))
      × (res.0 ≡ done)
      × (r.link_id ≡ id)
      × (r.medium ≡ medium)
unfolding receipt_of succeeds link_of medium_of
receipt_of-inv c w k es sentinel id medium (d, inl e) done r is =
    absurd (false≢true (ap (λ x. succeeds x.1) is))
receipt_of-inv c w k es sentinel id medium (d, inr success) done r is = (
  (success, refl),
  ap (λ x. x.0) is,
  sym (ap (λ x. link_of x.1) is),
  sym (ap (λ x. medium_of x.1) is),
)

pub send-Scheduled :
    {A : Type 0} (c : Client) (w : Wire) (k : Codec) (es : List Exchange) (method path : String)
    (decode : String → String ⊎ A) (empty_body : Option A)
    → IsSettled c
    → let req : Sending = record { method = method; path = path; payload = none } in
      let reading : Reading A = record {
        decode = decode;
        empty_body = empty_body;
        trim_space = k.trim_space;
      } in
      Scheduled c w req reading
        (pos_part c.max_attempts)
        (send c w k es method path none decode empty_body)
unfolding send
send-Scheduled c w k es method path decode empty_body settled = settled-Scheduled c w _ _ es settled

notify_by_cases :
    (c : Client) (w : Wire) (k : Codec) (es : List Exchange) (base sentinel noun id medium : String)
    (done : List Exchange) (r : NotifyReceipt)
    → notify_by c w k es base sentinel noun id medium ≡ (done, inr r)
    → OneOf medium (medium_sms ∷ medium_email ∷ [])
      × (id ≢ "")
      × (receipt_of c w k es id medium (
            mapped sentinel id (
              send c w k es method_post
                (base <> ("/" <> (k.path_escape id <> ("/notify_by/" <> k.path_escape medium))))
                none
                k.decode_notify
                (some none)))
          ≡ (done, inr r))
unfolding notify_by succeeds
notify_by_cases c w k es base sentinel noun id medium done r is =
    elim (Bool-cases (not (medium == medium_sms) && not (medium == medium_email))) [
      | inl bad ↦ absurd (false≢true (ap (λ x. succeeds x.1) (rw (bad, notify_by) at is)))
      | inr good ↦ elim (Bool-cases (id == "")) [
        | inl empty ↦
            absurd (false≢true (ap (λ x. succeeds x.1) (rw (good, empty, notify_by) at is)))
        | inr named ↦ (
          ground (arith, good, eq_iff medium medium_sms, eq_iff medium medium_email),
          ne-of_== id "" named,
          rw (good, named, notify_by) at is,
        )
      ]
    ]

-- A receipt of a notification, of an invoice or of a link, is for an id that is not empty and over
-- a medium that there is, which it names; the request was sent at most as often as the client
-- tries, and the last answer was a 2xx.
pub notify_by-Receipt :
    (c : Client) (w : Wire) (k : Codec) (es : List Exchange) (base sentinel noun id medium : String)
    (done : List Exchange) (r : NotifyReceipt)
    → IsSettled c
    → notify_by c w k es base sentinel noun id medium ≡ (done, inr r)
    → OneOf medium (medium_sms ∷ medium_email ∷ [])
      × (id ≢ "")
      × (r.link_id ≡ id)
      × (r.medium ≡ medium)
      × (length (replies done) ≤ pos_part c.max_attempts)
      × EndsTaken (replies done)
notify_by-Receipt c w k es base sentinel noun id medium done r settled is =
    let (lawful, named, answered) =
      notify_by_cases c w k es base sentinel noun id medium done r is in
    let path = base <> ("/" <> (k.path_escape id <> ("/notify_by/" <> k.path_escape medium))) in
    let ran = send c w k es method_post path none k.decode_notify (some none) in
    let ((success, ok), same, link, over) =
      receipt_of-inv c w k es sentinel id medium ran done r answered in
    let schedule = send-Scheduled c w k es method_post path k.decode_notify (some none) settled in
    (
      lawful,
      named,
      link,
      over,
      rw same at schedule.sent_most,
      rw same at (schedule.takes success ok),
    )
