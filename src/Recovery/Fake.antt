-- ===== src/Recovery/Fake.antt =====
-- internal/recovery/arms.go: the attempts of an arm on the gateway that is kept in memory.
pub mod Recovers
use rzp_rebound.Prelude.{ℕ, zero, suc, String, inl, inr, Option, none, some, pos}
use rzp_rebound.Time.{Instant}
use rzp_rebound.Gateway.{Fake, Built, fake_error_text}
use rzp_rebound.Gateway.Payments.{attempt_payment}
use rzp_rebound.Recovery.{AgentVisibleOrder, Attempter}

-- FakeAttempter.Attempt; `now` is the clock of the gateway.
unfoldable pub fake_attempter : Built → (String → String) → (Fake → Instant) → Attempter Fake
fake_attempter b quoted now f order card =
    let (f', answer) = attempt_payment b f (now f) order.order_id card in
    (
      f',
      elim answer [
        | inl e ↦
            (record { payment_id = ""; gateway_calls = pos 1 }, some (fake_error_text quoted e))
        | inr payment ↦ (record { payment_id = payment.id; gateway_calls = pos 1 }, none)
      ],
    )
