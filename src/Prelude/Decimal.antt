-- ===== src/Prelude/Decimal.antt =====
-- %d of package fmt, on a signed integer.
use Prim.Native.Nat.{ℕ, zero, suc, ◌/◌, ◌%◌}
use Prim.Native.String.{String, ◌++◌}
use rzp_rebound.Prelude.Tests.{ltb, eqb, if◌then◌else◌}
use rzp_rebound.Prelude.Int.{ℤ, pos, negsuc}

digit : ℕ → String
digit n =
    if eqb n 0
    then "0"
    else if eqb n 1
    then "1"
    else if eqb n 2
    then "2"
    else if eqb n 3
    then "3"
    else if eqb n 4
    then "4"
    else if eqb n 5
    then "5"
    else if eqb n 6
    then "6"
    else if eqb n 7
    then "7"
    else if eqb n 8
    then "8"
    else "9"

-- At most one digit for each unit of fuel; a number has fewer digits than units.
digits_from : ℕ → ℕ → String
digits_from zero n = ""
digits_from (suc fuel) n =
    let rest = digits_from fuel (n / 10) ++ digit (n % 10) in if ltb n 10 then digit n else rest

unfoldable pub decimal : ℤ → String
unfolding digits_from digit
decimal (pos n) = digits_from (suc n) n
decimal (negsuc n) = "-" ++ digits_from (suc (suc n)) (suc n)
