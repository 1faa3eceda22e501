-- ===== src/Action.antt =====
-- The names of the closed action set, which internal/riskitem/riskitem.go declares and
-- internal/policy/sources.go declares again with the same texts.
use rzp_rebound.Prelude.{String, Bool, List, [], ◌∷◌, contains}

abbrev pub notify_email : String
notify_email = "notify_email"

abbrev pub notify_sms : String
notify_sms = "notify_sms"

abbrev pub create_payment_link : String
create_payment_link = "create_payment_link"

abbrev pub resend_link : String
resend_link = "resend_link"

abbrev pub log_promise : String
log_promise = "log_promise"

abbrev pub escalate : String
escalate = "escalate"

abbrev pub cancel_write_off : String
cancel_write_off = "cancel_write_off"

abbrev pub do_nothing : String
do_nothing = "do_nothing"

-- lawfulActions of internal/riskitem/riskitem.go
unfoldable pub lawful_set : List String
lawful_set =
    notify_email ∷ notify_sms ∷ create_payment_link ∷ resend_link ∷ log_promise ∷ escalate
    ∷ cancel_write_off ∷ do_nothing ∷ []

unfoldable pub is_lawful : String → Bool
is_lawful action = contains lawful_set action
