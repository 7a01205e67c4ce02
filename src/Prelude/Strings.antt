-- ===== src/Prelude/Strings.antt =====
-- What the code uses of Rust's `str` beyond `Text`: byte lengths, cuts at byte offsets and prefixes.
use Prim.Native.Nat.{ℕ, zero, suc, ◌+◌, ◌-◌, ◌*◌, ◌/◌, ◌%◌}
use mathlib.Core.Bool.{Bool, ◌&&◌}
use mathlib.Core.Option.{Option, none, some}
use mathlib.Core.List.{[], ◌∷◌}
use taskologic.Prelude.Tests.{ltb, leb, ◌==◌, if◌then◌else◌}
use taskologic.Prelude.Text.{Text}

-- `char::len_utf8`
abbrev pub len_utf8 : ℕ → ℕ
len_utf8 c = if ltb c 0x80 then 1 else if ltb c 0x800 then 2 else if ltb c 0x10000 then 3 else 4

-- `str::len`
abbrev pub byte_len : Text → ℕ
byte_len [] = 0
byte_len (c ∷ s) = len_utf8 c + byte_len s

-- The character in front of what was cut.
abbrev pub in_front : ℕ → Option (Text × Text) → Option (Text × Text)
in_front c none = none
in_front c (some (s, t)) = some (c ∷ s, t)

-- `str::split_at`; nothing where it panics, as the offset is past the end or inside a character.
abbrev pub split_at : Text → ℕ → Option (Text × Text)
split_at s zero = some ([], s)
split_at [] (suc n) = none
split_at (c ∷ s) (suc n) =
    let rest = split_at s (suc n - len_utf8 c) in
    if ltb (suc n) (len_utf8 c) then none else in_front c rest

-- `str::strip_prefix`
abbrev pub strip_prefix : Text → Text → Option Text
strip_prefix [] s = some s
strip_prefix (p ∷ ps) [] = none
strip_prefix (p ∷ ps) (c ∷ s) = let rest = strip_prefix ps s in if p == c then rest else none

-- `char::is_ascii_digit`
abbrev pub is_ascii_digit : ℕ → Bool
is_ascii_digit c = leb b'0' c && leb c b'9'

-- `chars().take_while(char::is_ascii_digit)`, and what is left.
abbrev pub span_digits : Text → Text × Text
span_digits [] = ([], [])
span_digits (c ∷ s) =
    let (digits, rest) = span_digits s in
    if is_ascii_digit c then (c ∷ digits, rest) else ([], c ∷ s)

-- The loop of `from_str` over the digits; nothing at another character or once it overflows.
abbrev pub parse_digits : ℕ → ℕ → Text → Option ℕ
parse_digits bound acc [] = some acc
parse_digits bound acc (c ∷ s) =
    let rest = parse_digits bound (acc * 10 + (c - b'0')) s in
    if is_ascii_digit c && ltb (acc * 10 + (c - b'0')) bound then rest else none

-- `parse` of an unsigned integer below the bound. One leading plus is allowed, an empty text is not.
unfoldable pub parse_unsigned : ℕ → Text → Option ℕ
parse_unsigned bound [] = none
parse_unsigned bound (c ∷ []) = parse_digits bound 0 (c ∷ [])
parse_unsigned bound (c ∷ d ∷ s) =
    if c == b'+' then parse_digits bound 0 (d ∷ s) else parse_digits bound 0 (c ∷ d ∷ s)

-- `Display` of an unsigned integer: so many digits at most.
unfoldable pub decimal_loop : ℕ → ℕ → Text → Text
decimal_loop zero n out = out
decimal_loop (suc fuel) n out =
    let more = decimal_loop fuel (n / 10) ((b'0' + (n % 10)) ∷ out) in
    if ltb n 10 then (b'0' + n) ∷ out else more

-- A u32 has ten digits at most.
unfoldable pub decimal : ℕ → Text
unfolding decimal_loop
decimal n = decimal_loop 10 n []
