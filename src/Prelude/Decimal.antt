-- ===== src/Prelude/Decimal.antt =====
-- Decimal numbers: what is printed is parsed to the same number.
use Prim.Native.Nat.{ℕ, zero, suc, ◌+◌, ◌/◌, ◌%◌, ◌^◌, ◌<◌, ◌≤◌}
use mathlib.Core.Path.{◌≡◌}
use mathlib.Core.Option.{some}
use mathlib.Core.List.{[], ◌∷◌}
use native.Mathlib.Omega.{arith}
use taskologic.Prelude.Lists.{All, length}
use taskologic.Prelude.Text.{Text}
use taskologic.Prelude.Strings.{parse_digits, decimal_loop, decimal}

abbrev pub IsAsciiDigit : ℕ → Type 0
IsAsciiDigit c = (48 ≤ c) × (c ≤ 57)

pub decimal_loop-digits :
    (fuel n : ℕ) (out : Text) → All IsAsciiDigit out → All IsAsciiDigit (decimal_loop fuel n out)
unfolding decimal_loop
decimal_loop-digits zero n out h = h
decimal_loop-digits (suc fuel) n out h = ground (
  arith,
  decimal_loop-digits fuel (n / 10) ((b'0' + (n % 10)) ∷ out) ((omega arith, omega arith), h),
)

pub decimal-digits : (n : ℕ) → All IsAsciiDigit (decimal n)
unfolding decimal
decimal-digits n = decimal_loop-digits 10 n [] tt

-- Parsing what the loop has written goes on with what was there, from the number.
parse-loop :
    (bound fuel n : ℕ) (out : Text)
    → n < 10 ^ fuel
    → n < bound
    → 1 ≤ fuel
    → parse_digits bound 0 (decimal_loop fuel n out) ≡ parse_digits bound n out
unfolding decimal_loop
parse-loop bound zero n out h b f = absurd (omega arith)
parse-loop bound (suc zero) n out h b f = ground arith
parse-loop bound (suc (suc fuel)) n out h b f = ground (
  arith,
  parse-loop bound (suc fuel) (n / 10) ((b'0' + (n % 10)) ∷ out) (omega arith) (omega arith)
      (omega arith),
)

pub parse_digits-decimal :
    (bound n : ℕ) → n < bound → n < 10 ^ 10 → parse_digits bound 0 (decimal n) ≡ some n
unfolding decimal
parse_digits-decimal bound n b h = parse-loop bound 10 n [] h b (omega arith)

-- How many digits are printed.
length-decimal_loop_ge : (fuel n : ℕ) (out : Text) → length out ≤ length (decimal_loop fuel n out)
unfolding decimal_loop
length-decimal_loop_ge zero n out = omega arith
length-decimal_loop_ge (suc fuel) n out =
    ground (arith, length-decimal_loop_ge fuel (n / 10) ((b'0' + (n % 10)) ∷ out))

pub length-decimal_loop_le :
    (fuel k n : ℕ) (out : Text)
    → k ≤ fuel
    → n < 10 ^ suc k
    → length (decimal_loop (suc fuel) n out) ≤ suc k + length out
unfolding decimal_loop
length-decimal_loop_le fuel zero n out h l = ground arith
length-decimal_loop_le zero (suc k) n out h l = absurd (omega arith)
length-decimal_loop_le (suc fuel) (suc k) n out h l = ground (
  arith,
  length-decimal_loop_le fuel k (n / 10) ((b'0' + (n % 10)) ∷ out) (omega arith) (omega arith),
)

pub length-decimal_loop_gt :
    (fuel k n : ℕ) (out : Text)
    → k ≤ fuel
    → 10 ^ k ≤ n
    → suc k + length out ≤ length (decimal_loop (suc fuel) n out)
unfolding decimal_loop
length-decimal_loop_gt fuel zero n out h l =
    ground (arith, length-decimal_loop_ge fuel (n / 10) ((b'0' + (n % 10)) ∷ out))
length-decimal_loop_gt zero (suc k) n out h l = absurd (omega arith)
length-decimal_loop_gt (suc fuel) (suc k) n out h l = ground (
  arith,
  length-decimal_loop_gt fuel k (n / 10) ((b'0' + (n % 10)) ∷ out) (omega arith) (omega arith),
)
