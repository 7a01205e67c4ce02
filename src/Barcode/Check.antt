-- ===== src/Barcode/Check.antt =====
-- The check character of barcode.rs, ISO 7064 MOD 37,36.
pub mod Laws
pub mod Errors
pub mod Swap
pub mod Tests
use taskologic.Prelude.{
  ℕ, ◌+◌, ◌-◌, ◌*◌, ◌/◌, ◌%◌, Option, none, some, Bool, true, false, ◌&&◌, List, [], ◌∷◌, foldl,
}
use taskologic.Prelude.Tests.{◌==◌, if◌then◌else◌}
use taskologic.Prelude.Text.{Text}
use taskologic.Ids.{base36_value, base36_char}

-- `MOD`
abbrev pub modulus : ℕ
modulus = 36

abbrev pub base_of : ℕ → ℕ
base_of check = if check == 0 then modulus else check

-- One round of the loop in `mod37_36_checksum`.
unfoldable pub checksum_step : ℕ → ℕ → ℕ
checksum_step check v = ((base_of check * 2) % (modulus + 1) + v) % modulus

unfoldable pub checksum : List ℕ → ℕ
checksum values = foldl checksum_step (modulus / 2) values

-- `chars().map(base36_value).collect::<Option<Vec<u32>>>()`
unfoldable pub base36_values : Text → Option (List ℕ)
base36_values [] = some []
base36_values (c ∷ s) = elim (base36_value c) [
  | none ↦ none
  | some v ↦ elim (base36_values s) [ none ↦ none | some vs ↦ some (v ∷ vs) ]
]

abbrev pub check_value : ℕ → ℕ
check_value cs = (1 + modulus - (base_of cs * 2) % (modulus + 1)) % modulus

unfoldable pub check_char : Text → Option ℕ
check_char body = elim (base36_values body) [
  | none ↦ none
  | some values ↦ base36_char (check_value (checksum values))
]

abbrev pub verify_values : List ℕ → Bool
verify_values [] = false
verify_values (v ∷ vs) = checksum (v ∷ vs) == 1

unfoldable pub verify_check : Text → Bool
verify_check with_check = elim (base36_values with_check) [
  | none ↦ false
  | some values ↦ verify_values values
]
