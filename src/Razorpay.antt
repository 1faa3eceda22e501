-- ===== src/Razorpay.antt =====
-- The records of internal/razorpay/port.go and invoices.go that a sweep reads. An Invoice is
-- given by the fields that the detectors read. The endpoints are parameters: a list call answers
-- with a page or with an error, whose text stands for it.
pub mod Client
pub mod Retry
pub mod Codec
pub mod Port
pub mod Endpoints
pub mod Receipts
pub mod Missing
pub mod Attempt
pub mod Schedule
mod Examples
use rzp_rebound.Prelude.{String, ◌<>◌, ◌⊎◌, Bool, Option, List, Dict, ℤ, decimal}
use rzp_rebound.Time.{Instant}

abbrev pub order_status_created : String
order_status_created = "created"

abbrev pub payment_status_failed : String
payment_status_failed = "failed"

abbrev pub invoice_status_issued : String
invoice_status_issued = "issued"

abbrev pub invoice_status_partial : String
invoice_status_partial = "partially_paid"

abbrev pub medium_sms : String
medium_sms = "sms"

abbrev pub medium_email : String
medium_email = "email"

abbrev pub Notes : Type 0
Notes = Dict String

pub record Order : Type 0 where
  pub id : String
  pub amount_paise : ℤ
  pub amount_paid : ℤ
  pub amount_due : ℤ
  pub currency : String
  pub receipt : String
  pub status : String
  pub attempts : ℤ
  pub created_at : ℤ
  pub notes : Notes

pub record Payment : Type 0 where
  pub id : String
  pub order_id : String
  pub amount_paise : ℤ
  pub currency : String
  pub status : String
  pub method : String
  pub email : String
  pub contact : String
  pub created_at : ℤ
  pub error_code : String
  pub error_description : String
  pub error_source : String
  pub error_step : String
  pub error_reason : String

pub record InvoiceCustomer : Type 0 where
  pub id : String
  pub name : String
  pub email : String
  pub contact : String
  pub gstin : String

pub record Invoice : Type 0 where
  pub id : String
  pub customer_details : InvoiceCustomer
  pub order_id : String
  pub status : String
  pub short_url : String
  pub currency : String
  pub amount_paise : ℤ
  pub amount_paid : ℤ
  pub amount_due : ℤ
  pub sms_status : String
  pub email_status : String
  pub issued_at : ℤ

-- `to` is left at 0 by every caller.
pub record ListOptions : Type 0 where
  pub count : ℤ
  pub skip : ℤ
  pub from : ℤ
  pub to : ℤ

-- What a call answers: its error, or the records.
abbrev pub Answer : Type 0 → Type 0
Answer A = String ⊎ A

abbrev pub Lister : Type 0 → Type 0
Lister A = ListOptions → Answer (List A)

pub record PaymentLink : Type 0 where
  pub id : String
  pub short_url : String
  pub status : String
  pub amount_paise : ℤ
  pub currency : String
  pub reference_id : String
  pub created_at : ℤ

pub record NotifyReceipt : Type 0 where
  pub link_id : String
  pub medium : String
  pub accepted : Bool
  pub requested_at : Instant

pub record CreatePaymentLinkRequest : Type 0 where
  pub amount_paise : ℤ
  pub currency : String
  pub description : String
  pub reference_id : String
  pub notify_sms : Bool
  pub notify_email : Bool

pub record ApiError : Type 0 where
  pub status_code : ℤ
  pub method : String
  pub path : String
  pub body : String
  pub description : String
  pub reason : String

-- e.Error()
unfoldable pub api_error_text : ApiError → String
unfolding decimal
api_error_text e =
    "razorpay: "
    <> (e.method
        <> (" " <> (e.path <> (" returned " <> (decimal e.status_code <> (": " <> e.body))))))

-- What its callers ask of an error of the client: errors.Is(err, ErrRetryBudgetExhausted), the
-- not-found error that errors.Is finds in it, errors.As(err, *APIError), and err.Error().
pub record CallError : Type 0 where
  pub exhausted : Bool
  pub not_found : Option String
  pub answer : Option ApiError
  pub text : String
