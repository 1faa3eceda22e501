-- ===== src/Razorpay/Port.antt =====
-- The interface Port of internal/razorpay/port.go, with the clock of internal/clock/clock.go, over
-- the state `W` of everything outside the program: each call may change it. The error of a call
-- is its text.
use rzp_rebound.Prelude.{String, Option, List}
use rzp_rebound.Time.{Instant, Duration}
use rzp_rebound.Razorpay.{
  Order, Payment, PaymentLink, NotifyReceipt, CreatePaymentLinkRequest, Answer,
}
use rzp_rebound.Razorpay.Codec.{CreateOrderRequest}

pub record Port (W : Type 0) : Type 0 where
  pub create_order : W → CreateOrderRequest → W × Answer Order
  pub fetch_order : W → String → W × Answer Order
  pub list_payments_for_order : W → String → W × Answer (List Payment)
  pub fetch_payment : W → String → W × Answer Payment
  pub create_payment_link : W → CreatePaymentLinkRequest → W × Answer PaymentLink
  pub resend_notification : W → String → String → W × Answer NotifyReceipt

-- `wait` is the backoff of a poll, which answers the error of a context that ended.
pub record Clock (W : Type 0) : Type 0 where
  pub now : W → Instant
  pub wait : W → Duration → W × Option String
