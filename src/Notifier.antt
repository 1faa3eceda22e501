-- ===== src/Notifier.antt =====
-- internal/notify/notify.go and mock.go: the notifier of the retry engine, and the port that records
-- what it was asked to send. The lock is left out.
pub mod Honest
mod Examples
use rzp_rebound.Prelude.{
  String, ◌<>◌, inl, inr, Bool, true, false, not, ◌&&◌, ◌==◌, if◌then◌else◌, Option, none, some,
  List, [], ◌∷◌, ◌++◌,
}
use rzp_rebound.Time.{Instant}
use rzp_rebound.Razorpay.{NotifyReceipt, Answer, medium_sms, medium_email}
use rzp_rebound.Razorpay.Codec.{err_unsupported_medium}

abbrev pub phrase_call_succeeded : String
phrase_call_succeeded = "notification API call succeeded"

abbrev pub phrase_call_failed : String
phrase_call_failed = "notification API call failed"

abbrev pub phrase_medium_rejected : String
phrase_medium_rejected = "notification medium rejected before any API call"

abbrev err_not_accepted : String
err_not_accepted = "notify: the gateway did not accept the resend"

unfoldable pub audit_phrases : List String
audit_phrases = phrase_call_succeeded ∷ phrase_call_failed ∷ phrase_medium_rejected ∷ []

-- The Receipt of the package.
pub record SendReceipt : Type 0 where
  pub link_id : String
  pub medium : String
  pub call_succeeded : Bool
  pub delivery_confirmed : Bool
  pub audit_phrase : String
  pub requested_at : Instant

-- The receipt that SendPaymentLink starts from.
abbrev blank : Instant → String → String → SendReceipt
blank now link_id medium = record {
  link_id = link_id;
  medium = medium;
  call_succeeded = false;
  delivery_confirmed = false;
  audit_phrase = "";
  requested_at = now;
}

-- SendPaymentLink past the answer of the port
unfoldable pub on_resend :
    Instant → String → String → Answer NotifyReceipt → SendReceipt × Option String
on_resend now link_id medium (inl e) = (
  record (blank now link_id medium) { audit_phrase = phrase_call_failed },
  some ("notify: resend " <> (link_id <> (" over " <> (medium <> (": " <> e))))),
)
on_resend now link_id medium (inr answer) =
    if not answer.accepted
    then (
      record (blank now link_id medium) { audit_phrase = phrase_call_failed },
      some (err_not_accepted <> (": " <> (link_id <> (" over " <> medium)))),
    )
    else (
      record (blank now link_id medium) {
        call_succeeded = true;
        audit_phrase = phrase_call_succeeded;
      },
      none,
    )

-- n.SendPaymentLink; `resend` is the port, and `quoted` a text under the verb %q.
unfoldable pub send_payment_link :
    {W : Type 0}
    → (W → String → String → W × Answer NotifyReceipt)
    → (String → String)
    → W
    → Instant
    → String
    → String
    → W × (SendReceipt × Option String)
send_payment_link resend quoted w now link_id medium =
    if not (medium == medium_sms) && not (medium == medium_email)
    then (
      w,
      (
        record (blank now link_id medium) { audit_phrase = phrase_medium_rejected },
        some (err_unsupported_medium <> (": " <> quoted medium)),
      ),
    )
    else (let (w', answer) = resend w link_id medium in (w', on_resend now link_id medium answer))

pub record Send : Type 0 where
  pub link_id : String
  pub medium : String

-- The Mock of the package, which answers with `err` or a receipt.
pub record Mock : Type 0 where
  pub sends : List Send
  pub err : Option String
  pub accepted : Bool

abbrev pub new_mock : Mock
new_mock = record { sends = []; err = none; accepted = true }

-- m.ResendPaymentLinkNotification
unfoldable pub mock_resend : Instant → Mock → String → String → Mock × Answer NotifyReceipt
mock_resend now m link_id medium = (
  record m { sends = m.sends ++ (record { link_id = link_id; medium = medium }) ∷ [] },
  elim m.err [
    | some e ↦ inl e
    | none ↦
        inr
          (record { link_id = link_id; medium = medium; accepted = m.accepted; requested_at = now })
  ],
)
