-- ===== src/Ids/ShortId.antt =====
-- `ShortId` of ids.rs: six uppercase base36 characters, and the number that they spell.
pub mod Laws
pub mod Parse
pub mod Tests
use taskologic.Prelude.{
  ℕ, zero, suc, ◌+◌, ◌*◌, ◌/◌, ◌%◌, ◌^◌, Option, none, some, List, [], ◌∷◌, ◌++◌, foldl, ◌≡◌,
}
use taskologic.Prelude.Tests.{◌==◌, if◌then◌else◌}
use taskologic.Prelude.Lists.{length, get_elem?, All}
use taskologic.Prelude.Result.{Result, ok, err}
use taskologic.Prelude.Text.{Text}
use taskologic.Ids.{base36_alphabet, base36_value, base36_char}

-- The array of six bytes. It is private in the source: `from_index` and `parse` build it.
pub record ShortId : Type 0 where
  pub bytes : Text

pub data ShortIdError : Type 0 where
  wrong_length : ℕ → ShortIdError
  bad_char : ℕ → ShortIdError

abbrev pub len : ℕ
len = 6

-- Number of distinct short ids.
abbrev pub space : ℕ
space = 36 ^ len

-- `unwrap_or`
abbrev pub value_or_zero : Option ℕ → ℕ
value_or_zero none = 0
value_or_zero (some v) = v

-- `BASE36_ALPHABET[v]`, at an index below 36.
unfoldable pub digit : ℕ → ℕ
unfolding base36_char
digit v = value_or_zero (base36_char v)

-- The loop of `from_index` over the slots from the last to the first; `out` is what is written.
unfoldable pub fill : ℕ → ℕ → Text → Text
fill zero n out = out
fill (suc slots) n out = fill slots (n / 36) (digit (n % 36) ∷ out)

unfoldable pub from_index : ℕ → ShortId
unfolding fill
from_index n = record { bytes = fill len (n % space) [] }

abbrev pub add_digit : ℕ → ℕ → ℕ
add_digit acc b = acc * 36 + value_or_zero (base36_value b)

-- Inverse of `from_index`. The sums stay below 36 ^ 6, so the u64 never wraps: `index-lt-space`.
unfoldable pub index : ShortId → ℕ
unfolding base36_value
index id = foldl add_digit 0 id.bytes

-- The loop of `parse`: `rest` is what is left of `s`, `out` the first `n` slots.
unfoldable pub parse_loop : Text → Text → Text → ℕ → Result ShortId ShortIdError
parse_loop s [] out n = if n == len then ok (record { bytes = out }) else err (wrong_length n)
parse_loop s (c ∷ rest) out n =
    if n == len then err (wrong_length (length s)) else elim (base36_value c) [
      | none ↦ err (bad_char c)
      | some v ↦ parse_loop s rest (out ++ digit v ∷ []) (n + 1)
    ]

-- Parse and normalise to uppercase.
unfoldable pub parse : Text → Result ShortId ShortIdError
unfolding parse_loop
parse s = parse_loop s s [] 0

abbrev pub as_str : ShortId → Text
as_str id = id.bytes

-- A character that `parse` and `from_index` write: an uppercase base36 digit.
abbrev pub IsDigit : ℕ → Type 0
IsDigit c = (v : ℕ) × (base36_value c ≡ some v) × (digit v ≡ c)

-- What holds of every short id that the code builds.
pub record IsShortId (id : ShortId) : Type 0 where
  pub six : length id.bytes ≡ len
  pub digits : All IsDigit id.bytes
