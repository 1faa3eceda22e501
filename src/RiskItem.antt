-- ===== src/RiskItem.antt =====
-- internal/riskitem/riskitem.go: the one item type of the engine. The interfaces Detector and
-- Intervention are met by Detect and Intervene; the closed action set is in Action.
use Prim.Native.String.{slice}
use rzp_rebound.Prelude.{String, ◌<>◌, Bool, not, ◌||◌, ◌==◌, if◌then◌else◌, ℤ}
use rzp_rebound.Time.{Instant}

abbrev pub handle_kind_none : String
handle_kind_none = ""

abbrev pub handle_kind_payment_link : String
handle_kind_payment_link = "payment_link"

abbrev pub handle_kind_invoice : String
handle_kind_invoice = "invoice"

pub record Customer : Type 0 where
  pub name : String
  pub email : String
  pub contact : String

unfoldable pub has_contact_channel : Customer → Bool
has_contact_channel c = not (c.email == "") || not (c.contact == "")

pub record Signal : Type 0 where
  pub failure_code : String
  pub failure_reason : String
  pub failure_source : String
  pub failure_step : String
  pub method : String
  pub attempts : ℤ
  pub email_status : String
  pub sms_status : String

pub record PayHandle : Type 0 where
  pub kind : String
  pub url : String
  pub id : String

pub record RiskItem : Type 0 where
  pub id : String
  pub source : String
  pub source_id : String
  pub root_order_id : String
  pub customer : Customer
  pub amount_paise : ℤ
  pub amount_paid_paise : ℤ
  pub amount_due_paise : ℤ
  pub currency : String
  pub at_risk_since : ℤ
  pub signal : Signal
  pub pay_handle : PayHandle

-- The hex digest is that of crypto/sha256, which is a parameter.
unfoldable pub new_id : (String → String) → String → String → String
new_id sha256_hex source source_id = "ri_" <> slice (sha256_hex (source <> ("|" <> source_id))) 0 12

unfoldable pub dedupe_key : RiskItem → String
dedupe_key r =
    if not (r.root_order_id == "") then r.root_order_id else r.source <> ("|" <> r.source_id)

pub record Outcome : Type 0 where
  pub action : String
  pub accepted : Bool
  pub observable : String
  pub handle : PayHandle
  pub at : Instant
  pub err : String
