-- ===== src/Notifier/Honest.antt =====
-- What a receipt of internal/notify/notify.go claims.
use rzp_rebound.Prelude.{String, ◌≡◌, ◌↔◌, true, false, Option, none, List, [], ◌∷◌, OneOf}
use rzp_rebound.Razorpay.{medium_sms, medium_email}
use rzp_rebound.Notifier.{SendReceipt, audit_phrases, phrase_call_succeeded}

-- A receipt that claims no more than an accepted call.
pub record IsHonest (r : SendReceipt) (err : Option String) : Type 0 where
  pub undelivered : r.delivery_confirmed ≡ false
  pub listed : OneOf r.audit_phrase audit_phrases
  pub succeeded : (r.call_succeeded ≡ true) ↔ (err ≡ none)
  pub phrased : (r.audit_phrase ≡ phrase_call_succeeded) ↔ (err ≡ none)

abbrev pub media : List String
media = medium_sms ∷ medium_email ∷ []
