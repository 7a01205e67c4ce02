-- ===== src/Control/Spelling.antt =====
-- The characters that commands are spelled with, and what the conversions of strings do to them.
use mathlib.Core.List.{map}
use taskologic.Prelude.{
  ℕ, zero, suc, ◌+◌, ◌/◌, ◌%◌, ◌^◌, ◌≤◌, ◌<◌, ◌≡◌, refl, sym, ap, ◌∙◌, subst, inl, inr, some, Bool,
  true, false, ◌&&◌, ◌||◌, [], ◌∷◌, ◌++◌, arith,
}
use taskologic.Prelude.Tests.{◌==◌, ltb, leb, Bool-cases}
use taskologic.Prelude.Lists.{All, all, length}
use taskologic.Prelude.Text.{Text, to_ascii_uppercase}
use taskologic.Prelude.Strings.{
  byte_len, is_ascii_digit, span_digits, parse_digits, parse_unsigned, decimal_loop, decimal,
}
use taskologic.Prelude.Decimal.{IsAsciiDigit, decimal-digits, parse_digits-decimal}
use taskologic.Ids.{base36_value}
use taskologic.Ids.ShortId.{ShortId, IsDigit, IsShortId}
use taskologic.Ids.ShortId.Parse.{digit-upper}

-- A digit or a capital letter.
abbrev pub is_code_char : ℕ → Bool
is_code_char c = (leb b'0' c && leb c b'9') || (leb b'A' c && leb c b'Z')

pub all-append :
    (p : ℕ → Bool) (s t : Text) → all p s ≡ true → all p t ≡ true → all p (s ++ t) ≡ true
all-append p [] t h k = k
all-append p (c ∷ s) t h k = ground (arith, all-append p s t)

pub all_mono :
    (p q : ℕ → Bool) (s : Text)
    → ((c : ℕ) → p c ≡ true → q c ≡ true)
    → all p s ≡ true
    → all q s ≡ true
all_mono p q [] f h = refl
all_mono p q (c ∷ s) f h = ground (arith, f c, all_mono p q s f)

-- What is spelled this way is in upper case.
pub map-upper_spelled : (s : Text) → all is_code_char s ≡ true → map to_ascii_uppercase s ≡ s
unfolding to_ascii_uppercase
map-upper_spelled [] h = refl
map-upper_spelled (c ∷ s) h = ground (arith, map-upper_spelled s)

-- And each character is a byte.
pub byte_len-spelled : (s : Text) → all is_code_char s ≡ true → byte_len s ≡ length s
byte_len-spelled [] h = refl
byte_len-spelled (c ∷ s) h = ground (arith, byte_len-spelled s)

digits-spelled : (s : Text) → All IsAsciiDigit s → all is_code_char s ≡ true
digits-spelled [] h = refl
digits-spelled (c ∷ s) (h, hs) = ground (arith, digits-spelled s hs)

pub decimal-spelled : (n : ℕ) → all is_code_char (decimal n) ≡ true
decimal-spelled n = digits-spelled (decimal n) (decimal-digits n)

IsDigit-spelled : (c : ℕ) → IsDigit c → is_code_char c ≡ true
unfolding base36_value to_ascii_uppercase
IsDigit-spelled c (v, e, d) = ground (arith, digit-upper c v e)

ids-spelled : (s : Text) → All IsDigit s → all is_code_char s ≡ true
ids-spelled [] h = refl
ids-spelled (c ∷ s) (h, hs) = ground (arith, IsDigit-spelled c h, ids-spelled s hs)

pub id-spelled : (id : ShortId) → IsShortId id → all is_code_char id.bytes ≡ true
id-spelled id h = ids-spelled id.bytes h.digits

-- A short id has a first character.
pub id-cons : (id : ShortId) → IsShortId id → (c : ℕ) × (s : Text) × (id.bytes ≡ c ∷ s)
id-cons id h = go id.bytes h.six
  where
    go : (s : Text) → length s ≡ 6 → (c : ℕ) × (t : Text) × (s ≡ c ∷ t)
    go [] k = absurd (omega arith)
    go (c ∷ t) k = (c, t, refl)

-- A number has a first digit, and is parsed from where it is printed.
loop-cons :
    (fuel n c : ℕ) (out : Text) → (c' : ℕ) × (s : Text) × (decimal_loop fuel n (c ∷ out) ≡ c' ∷ s)
unfolding decimal_loop
loop-cons zero n c out = (c, out, refl)
loop-cons (suc fuel) n c out =
    let (d, s, e) = loop-cons fuel (n / 10) ((b'0' + (n % 10))) (c ∷ out) in
    elim (Bool-cases (ltb n 10)) [
      | inl small ↦ (b'0' + n, c ∷ out, rw small refl)
      | inr large ↦ (d, s, rw large e)
    ]

pub decimal-cons : (n : ℕ) → (c : ℕ) × (s : Text) × (decimal n ≡ c ∷ s) × IsAsciiDigit c
unfolding decimal decimal_loop
decimal-cons n = elim (Bool-cases (ltb n 10)) [
  | inl small ↦ (b'0' + n, [], rw small refl, (omega arith, ground arith))
  | inr large ↦
      let (c, s, e) = loop-cons 9 (n / 10) ((b'0' + (n % 10))) [] in
      let e' : decimal n ≡ c ∷ s = rw large e in
      (c, s, e', (subst (All IsAsciiDigit) e' (decimal-digits n)).0)
]

parse_unsigned-digit :
    (bound c : ℕ) (s : Text)
    → IsAsciiDigit c
    → parse_unsigned bound (c ∷ s) ≡ parse_digits bound 0 (c ∷ s)
unfolding parse_unsigned
parse_unsigned-digit bound c [] h = refl
parse_unsigned-digit bound c (d ∷ s) h = let no : (c == b'+') ≡ false = ground arith in rw no refl

pub parse_unsigned-decimal :
    (bound n : ℕ) → n < bound → bound ≤ 10 ^ 10 → parse_unsigned bound (decimal n) ≡ some n
parse_unsigned-decimal bound n h k =
    let (c, s, e, d) = decimal-cons n in
    ap (parse_unsigned bound) e
    ∙ parse_unsigned-digit bound c s d
    ∙ ap (parse_digits bound 0) (sym e)
    ∙ parse_digits-decimal bound n h (omega arith)

pub span_digits-append :
    (s t : Text) → All IsAsciiDigit s → span_digits t ≡ ([], t) → span_digits (s ++ t) ≡ (s, t)
span_digits-append [] t h k = k
span_digits-append (c ∷ s) t (h, hs) k =
    let yes' : is_ascii_digit c ≡ true = ground arith in rw (span_digits-append s t hs k, yes') refl
