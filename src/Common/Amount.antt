-- ===== src/Common/Amount.antt =====
-- Amounts of money, and `roundTo2DecimalNumber` of src/core/utils/Utils.ts.
--
-- A JavaScript number that holds money is an integer here: the amount in units of a hundredth of
-- a cent. Sums and differences are exact, and an amount may have digits below the cent, which is
-- what rounding is about. `NaN`, infinities and binary rounding errors are left out.
use noba_server.Common.Base.{ℕ, zero, suc, ◌+◌, ◌*◌, ◌/◌, ◌%◌, ◌≡◌, Bool, true, false, arith}
use noba_server.Common.Int.{ℤ, pos, negsuc, ◌≤ℤ◌, ◌+ℤ◌, ◌-ℤ◌}

abbrev pub Amount : Type 0
Amount = ℤ

-- `cents n` is the amount n / 100.
abbrev pub cents : ℕ → Amount
cents n = pos (100 * n)

-- `Math.round`, and so `Utils.round`, rounds a half towards positive infinity.
unfoldable pub round_to_2_decimal_number : Amount → Amount
round_to_2_decimal_number (pos n) = pos ((n + 50) / 100 * 100)
round_to_2_decimal_number (negsuc n) = pos 0 -ℤ pos ((n + 50) / 100 * 100)

-- An amount that is a whole number of cents.
abbrev pub IsCents : Amount → Type 0
IsCents (pos n) = n % 100 ≡ 0
IsCents (negsuc n) = suc n % 100 ≡ 0

-- JavaScript's truth of a number: zero is falsy.
abbrev pub is_truthy : Amount → Bool
is_truthy (pos zero) = false
is_truthy _ = true

pub round-IsCents : (a : Amount) → IsCents (round_to_2_decimal_number a)
unfolding round_to_2_decimal_number ◌-ℤ◌
round-IsCents (pos n) = omega arith
round-IsCents (negsuc n) = ground arith

pub round_of_cents : (a : Amount) → IsCents a → round_to_2_decimal_number a ≡ a
unfolding round_to_2_decimal_number ◌-ℤ◌
round_of_cents (pos n) h = ground arith
round_of_cents (negsuc n) h = ground arith

-- What is at most a whole number of cents stays so when it is rounded.
pub round_le_cents : (a b : Amount) → IsCents b → a ≤ℤ b → round_to_2_decimal_number a ≤ℤ b
unfolding round_to_2_decimal_number ◌-ℤ◌
round_le_cents a b h k = ground arith

pub -ℤ-IsCents : (a b : Amount) → IsCents a → IsCents b → IsCents (a -ℤ b)
unfolding ◌-ℤ◌
-ℤ-IsCents a b h k = ground arith

pub +ℤ-IsCents : (a b : Amount) → IsCents a → IsCents b → IsCents (a +ℤ b)
unfolding ◌+ℤ◌
+ℤ-IsCents a b h k = ground arith
