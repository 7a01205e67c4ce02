-- ===== src/Ids/ShortId/Parse.antt =====
-- `ShortId::parse`: which texts it takes, and what it makes of them.
use taskologic.Prelude.{
  ℕ, ◌+◌, ◌<◌, ◌≤◌, ◌≡◌, refl, ap, sym, ◌∙◌, Bool, true, false, ◌↔◌, none, some, [], ◌∷◌, ◌++◌, map,
  inl, inr, arith,
}
use mathlib.Core.List.{append_assoc, append-nil}
use taskologic.Prelude.Tests.{◌==◌, check_below, check_below_sound, Bool-cases, Option-cases}
use taskologic.Prelude.Lists.{length, All, length-map}
use taskologic.Prelude.Result.{ok}
use taskologic.Prelude.Text.{Text, to_ascii_uppercase}
use taskologic.Ids.{base36_value}
use taskologic.Ids.ShortId.{ShortId, len, digit, parse, parse_loop, as_str, IsDigit, IsShortId}
use taskologic.Ids.ShortId.Laws.{base36_value-lt, digit-IsDigit}

-- A character that `parse` takes.
abbrev pub IsBase36 : ℕ → Type 0
IsBase36 c = (v : ℕ) × (base36_value c ≡ some v)

-- The digit of a character's value is the character in upper case.
upper_test : ℕ → Bool
upper_test c = elim (base36_value c) [ none ↦ true | some v ↦ digit v == to_ascii_uppercase c ]

upper_table : check_below upper_test 123 ≡ true
unfolding check_below upper_test base36_value digit to_ascii_uppercase
upper_table = refl

base36_value-lt_code : (c v : ℕ) → base36_value c ≡ some v → c < 123
unfolding base36_value
base36_value-lt_code c v h = ground arith

pub digit-upper : (c v : ℕ) → base36_value c ≡ some v → digit v ≡ to_ascii_uppercase c
digit-upper c v h =
    let t : upper_test c ≡ true =
      check_below_sound upper_test 123 c (base36_value-lt_code c v h) upper_table in
    unfold upper_test in ground (arith, t)

-- The loop on characters that all are digits, with room for them.
parse_loop-ok :
    (s rest out : Text) (n : ℕ)
    → All IsBase36 rest
    → n + length rest ≡ len
    → parse_loop s rest out n ≡ ok (record { bytes = out ++ map to_ascii_uppercase rest })
unfolding parse_loop
parse_loop-ok s [] out n a h = rw append-nil (ground arith)
parse_loop-ok s (c ∷ rest) out n ((v, e), a) h =
    let more : (n == len) ≡ false = ground arith in
    rw (more, e)
      (parse_loop-ok s rest (out ++ digit v ∷ []) (n + 1) a (omega arith)
        ∙ ap (λ t. ok (record { bytes = t }))
            (rw (digit-upper c v e)
              (append_assoc out (to_ascii_uppercase c ∷ []) (map to_ascii_uppercase rest))))

-- And the other way: it accepts nothing else.
parse_loop-inv :
    (s rest out : Text) (n : ℕ) (id : ShortId)
    → n ≤ len
    → parse_loop s rest out n ≡ ok id
    → All IsBase36 rest × (n + length rest ≡ len)
unfolding parse_loop
parse_loop-inv s [] out n id b h = ground arith
parse_loop-inv s (c ∷ rest) out n id b h = elim (Bool-cases (n == len)) [
  | inl full ↦ cc (rw full at h)
  | inr more ↦ elim (Option-cases (base36_value c)) [
    | inl e ↦ cc (rw (more, e) at h)
    | inr (v, e) ↦
        let (a, k) =
          parse_loop-inv s rest (out ++ digit v ∷ []) (n + 1) id (ground arith)
            (rw (more, e) at h) in
        (((v, e), a), omega arith)
  ]
]

-- The characters of a short id are digits, and are in upper case already.
IsDigit-IsBase36 : (s : Text) → All IsDigit s → All IsBase36 s
IsDigit-IsBase36 [] h = tt
IsDigit-IsBase36 (c ∷ s) ((v, e, d), h) = ((v, e), IsDigit-IsBase36 s h)

map-upper_self : (s : Text) → All IsDigit s → map to_ascii_uppercase s ≡ s
map-upper_self [] h = refl
map-upper_self (c ∷ s) ((v, e, d), h) = cc (digit-upper c v e, d, map-upper_self s h)

map-upper_digits : (s : Text) → All IsBase36 s → All IsDigit (map to_ascii_uppercase s)
map-upper_digits [] h = tt
map-upper_digits (c ∷ s) ((v, e), h) =
    (rw (← digit-upper c v e) (digit-IsDigit v (base36_value-lt c v e)), map-upper_digits s h)

-- `parse` accepts a text exactly when it is six base36 digits of either case, and the id that it
-- returns is the text in upper case.
pub parse_iff :
    (s : Text) (id : ShortId)
    → (parse s ≡ ok id)
      ↔ ((length s ≡ len) × All IsBase36 s × (id ≡ record { bytes = map to_ascii_uppercase s }))
unfolding parse
parse_iff s id = (
  λ h.
      let (a, n) = parse_loop-inv s s [] 0 id (omega arith) h in
      (omega arith, a, ground (arith, parse_loop-ok s s [] 0 a n)),
  λ (n, a, e). parse_loop-ok s s [] 0 a (omega arith) ∙ cc,
)

-- What `parse` returns is a short id.
pub parse-IsShortId : (s : Text) (id : ShortId) → parse s ≡ ok id → IsShortId id
parse-IsShortId s id h =
    let (n, a, e) = (parse_iff s id).0 h in
    rw e (record { six = length-map s to_ascii_uppercase ∙ n; digits = map-upper_digits s a })

-- A short id as text parses back to the short id.
pub parse-as_str : (id : ShortId) → IsShortId id → parse (as_str id) ≡ ok id
parse-as_str id h = (parse_iff id.bytes id).1 (
  h.six,
  IsDigit-IsBase36 id.bytes h.digits,
  ap (λ t. record { bytes = t }) (sym (map-upper_self id.bytes h.digits)),
)
