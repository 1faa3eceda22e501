-- ===== src/Prelude/Wrap.antt =====
-- Wrapping to 64 bits respects sums: a sum of wrapped integers wraps to what the plain sum does.
use Prim.Native.Nat.{ℕ, suc, ◌+◌, ◌-◌, ◌*◌, ◌/◌, ◌%◌, ◌^◌, ◌≤◌}
use rzp_rebound.Prelude.Tests.{Bool-cases, ltb, leb, if◌then◌else◌}
use rzp_rebound.Prelude.Int.{ℤ, pos, negsuc, pos_part, neg_part, sub_ℕ, ◌+ℤ◌, ◌-ℤ◌, wrap64}
use native.Mathlib.Omega.{arith}
use mathlib.Core.Path.{◌≡◌, refl, sym, ap, ◌∙◌}
use mathlib.Core.Logic.{inl, inr}

-- The integers differ by a multiple of 2^64.
pub record Near (a b : ℤ) : Type 0 where
  pub up : ℕ
  pub down : ℕ
  pub same : pos_part a + neg_part b + up * 2 ^ 64 ≡ pos_part b + neg_part a + down * 2 ^ 64

remainder : ℕ → ℕ → ℕ
remainder p n = (p + (2 ^ 64 - n % 2 ^ 64)) % 2 ^ 64

of_remainder : ℕ → ℤ
of_remainder r = if ltb r (2 ^ 63) then pos r else negsuc (2 ^ 64 - r - 1)

wrap64-remainder : (a : ℤ) → wrap64 a ≡ of_remainder (remainder (pos_part a) (neg_part a))
unfolding wrap64 remainder of_remainder
wrap64-remainder a = refl

remainder_eq :
    (p n q m k l : ℕ) → p + m + k * 2 ^ 64 ≡ q + n + l * 2 ^ 64 → remainder p n ≡ remainder q m
unfolding remainder
remainder_eq p n q m k l h = omega (arith, h)

pub Near-wrap64 : (a b : ℤ) → Near a b → wrap64 a ≡ wrap64 b
Near-wrap64 a b h =
    wrap64-remainder a
    ∙ ap of_remainder
        (remainder_eq (pos_part a) (neg_part a) (pos_part b) (neg_part b) h.up h.down h.same)
    ∙ sym (wrap64-remainder b)

of_remainder_parts :
    (r : ℕ)
    → suc r ≤ 2 ^ 64
    → (k : ℕ) × (pos_part (of_remainder r) + k * 2 ^ 64 ≡ r + neg_part (of_remainder r))
unfolding of_remainder
of_remainder_parts r h = elim (Bool-cases (ltb r (2 ^ 63))) [
  | inl e ↦ rw e (0, omega arith)
  | inr e ↦ rw e (1, omega (arith, h))
]

quotient : (p n : ℕ) → (k l : ℕ) × (p + l * 2 ^ 64 ≡ n + remainder p n + k * 2 ^ 64)
unfolding remainder
quotient p n = ((p + (2 ^ 64 - n % 2 ^ 64)) / 2 ^ 64, n / 2 ^ 64 + 1, omega arith)

remainder_small : (p n : ℕ) → suc (remainder p n) ≤ 2 ^ 64
unfolding remainder
remainder_small p n = omega arith

pub wrap64-Near : (a : ℤ) → Near a (wrap64 a)
wrap64-Near a =
    let r = remainder (pos_part a) (neg_part a) in
    let (i, parts) = of_remainder_parts r (remainder_small (pos_part a) (neg_part a)) in
    let (k, l, split) = quotient (pos_part a) (neg_part a) in
    rw (wrap64-remainder a) (record { up = l; down = k + i; same = omega (arith, parts, split) })

sub_parts : (m n : ℕ) → pos_part (sub_ℕ m n) + n ≡ m + neg_part (sub_ℕ m n)
sub_parts m n = elim (Bool-cases (leb n m)) [
  | inl e ↦ rw e (ground (arith, e))
  | inr e ↦ rw e (ground (arith, e))
]

add_parts :
    (a b : ℤ)
    → pos_part (a +ℤ b) + (neg_part a + neg_part b) ≡ pos_part a + pos_part b + neg_part (a +ℤ b)
unfolding ◌+ℤ◌
add_parts a b = sub_parts (pos_part a + pos_part b) (neg_part a + neg_part b)

minus_parts :
    (a b : ℤ)
    → pos_part (a -ℤ b) + (neg_part a + pos_part b) ≡ pos_part a + neg_part b + neg_part (a -ℤ b)
unfolding ◌-ℤ◌
minus_parts a b = sub_parts (pos_part a + neg_part b) (neg_part a + pos_part b)

-- The sum of two differences is the difference of two sums, each of them wrapped.
pub wrap64_exchange :
    (a b p q : ℤ)
    → wrap64 (wrap64 (a -ℤ b) +ℤ wrap64 (p -ℤ q)) ≡ wrap64 (wrap64 (a +ℤ p) -ℤ wrap64 (b +ℤ q))
wrap64_exchange a b p q =
    let x = wrap64-Near (a -ℤ b) in
    let y = wrap64-Near (p -ℤ q) in
    let z = wrap64-Near (a +ℤ p) in
    let t = wrap64-Near (b +ℤ q) in
    Near-wrap64 (wrap64 (a -ℤ b) +ℤ wrap64 (p -ℤ q)) (wrap64 (a +ℤ p) -ℤ wrap64 (b +ℤ q)) (record {
      up = x.down + y.down + z.up + t.down;
      down = x.up + y.up + z.down + t.up;
      same = omega (
        arith,
        x.same,
        y.same,
        z.same,
        t.same,
        minus_parts a b,
        minus_parts p q,
        add_parts a p,
        add_parts b q,
        add_parts (wrap64 (a -ℤ b)) (wrap64 (p -ℤ q)),
        minus_parts (wrap64 (a +ℤ p)) (wrap64 (b +ℤ q)),
      );
    })
