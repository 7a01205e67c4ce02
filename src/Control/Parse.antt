-- ===== src/Control/Parse.antt =====
-- control.rs: `Control::parse_one` and `parse`, with the panics that a cut of a string can be.
use taskologic.Prelude.{
  ℕ, zero, suc, ◌+◌, ◌-◌, ◌^◌, Option, none, some, Bool, ◌&&◌, ◌||◌, List, [], ◌∷◌, map,
}
use taskologic.Prelude.Tests.{◌==◌, leb, if◌then◌else◌}
use taskologic.Prelude.Lists.{length}
use taskologic.Prelude.Text.{Text, text_eq, to_ascii_uppercase, trim}
use taskologic.Prelude.Strings.{
  byte_len, split_at, strip_prefix, is_ascii_digit, span_digits, parse_unsigned, in_front,
}
use taskologic.Prelude.Result.{ok, err}
use taskologic.Ids.ShortId
use taskologic.Ids.ShortId.{ShortId}
use taskologic.Control.{
  ColumnRef, OffsetUnit, Value, SlipChoice, Control, move_to, print, set, show, key, named,
  named_times, value, new_from_template, new_from_template_ask, text_intro,
}
use taskologic.Control.Names.{
  lookup, column_from_code, unit_from_code, field_from_code, slip_from_code, in_range,
  key_from_code, words,
}

pub data ControlError : Type 0 where
  empty_code : ControlError
  unknown_command : Text → ControlError
  text_not_last : ControlError

-- What a call comes to: a value, an error, or a panic.
pub data Outcome (A : Type 0) : Type 0 where
  parsed : A → Outcome A
  failed : ControlError → Outcome A
  panics : Outcome A

abbrev pub bind : {A B : Type 0} → Outcome A → (A → Outcome B) → Outcome B
bind (parsed a) f = f a
bind (failed e) f = failed e
bind panics f = panics

-- `ok_or_else(bad)?`
abbrev pub or_bad : {A : Type 0} → Text → Option A → Outcome A
or_bad token none = failed (unknown_command token)
or_bad token (some a) = parsed a

abbrev pub offset : ℕ → Option ℕ → Option OffsetUnit → Option Control
offset sign none u = none
offset sign (some n) none = none
offset sign (some n) (some u) =
    some (value (if sign == b'P' then Value.plus n u else Value.minus n u))

-- `P2H`, `M30`, `P1MO`: the sign is the first character.
abbrev pub parse_offset : Text → Option Control
parse_offset [] = none
parse_offset (sign ∷ s) =
    let (digits, rest) = span_digits s in
    offset sign (parse_unsigned (2 ^ 32) digits) (unit_from_code rest)

-- `id_after`, on what follows the prefix of two letters.
abbrev pub id_after : Text → Text → Outcome ShortId
id_after token rest = elim (ShortId.parse rest) [
  | ok id ↦ parsed id
  | err e ↦ failed (unknown_command token)
]

-- The branch of `MC`: `nth(2)` is unwrapped.
abbrev pub parse_column : Text → Text → Outcome Control
parse_column token [] = panics
parse_column token (c ∷ s) =
    bind (or_bad token (column_from_code c)) (λ col. parsed (move_to (some col)))

abbrev pub times : Text → Option (Text × Text) → Outcome Control
times token none = failed (unknown_command token)
times token (some (k, n)) =
    bind (or_bad token (in_range 99 (parse_unsigned (2 ^ 8) n)))
      (λ n'. bind (or_bad token (key_from_code k)) (λ k'. parsed (named_times k' n')))

-- The branch of `X` on what follows it: a key, or a letter and how many times.
abbrev pub parse_key : Text → Text → Outcome Control
parse_key token rest = elim (key_from_code rest) [
  | some k ↦ parsed (named k)
  | none ↦ times token (split_at rest 1)
]

abbrev pub first_char : Text → Option ℕ
first_char [] = none
first_char (c ∷ s) = some c

-- The branch of `NT` and `NA` on what follows them: the last byte is cut off.
abbrev pub parse_template : Text → Text → (ShortId → ColumnRef → Control) → Outcome Control
parse_template token rest command = elim (split_at rest (byte_len rest - 1)) [
  | none ↦ panics
  | some (id, col) ↦ bind (id_after token id) (λ id'.
      bind (or_bad token (first_char col))
        (λ c. bind (or_bad token (column_from_code c)) (λ col'. parsed (command id' col'))))
]

-- `('M', Some('C')) if t.len() == 3`
abbrev pub is_column : ℕ → ℕ → Text → Bool
is_column first second t = first == b'M' && second == b'C' && byte_len t == 3

-- `('P', Some(c)) if t.len() == 2 && SlipChoice::from_code(c).is_some()`
abbrev pub slip_of : ℕ → ℕ → Text → Option SlipChoice
slip_of first second t = if first == b'P' && byte_len t == 2 then slip_from_code second else none

-- `Print` where it is that, and the arms below it otherwise.
abbrev pub or_print : Option SlipChoice → Outcome Control → Outcome Control
or_print none below = below
or_print (some s) below = parsed (print s)

-- The arms below that of `Print`.
unfoldable pub parse_letters : Text → ℕ → ℕ → Text → Outcome Control
parse_letters token first second rest =
    if (first == b'P' || first == b'M') && is_ascii_digit second
    then or_bad token (parse_offset (first ∷ second ∷ rest))
    else if first == b'S' && leb (byte_len (first ∷ second ∷ rest)) 3
    then bind (or_bad token (field_from_code (second ∷ rest))) (λ f. parsed (set f))
    else if first == b'S' && second == b'H'
    then bind (id_after token rest) (λ id. parsed (show (some id)))
    else if first == b'X'
    then parse_key token (second ∷ rest)
    else if first == b'G' && second == b'B'
    then bind (id_after token rest) (λ id. parsed (Control.show_board id))
    else if first == b'G' && second == b'A'
    then bind (id_after token rest) (λ id. parsed (Control.analytics id))
    else if first == b'R' && second == b'P'
    then bind (id_after token rest) (λ id. parsed (Control.start_program id))
    else if first == b'R' && second == b'N'
    then bind (id_after token rest) (λ id. parsed (Control.start_program_now id))
    else if first == b'N' && second == b'T'
    then parse_template token rest new_from_template
    else if first == b'N' && second == b'A'
    then parse_template token rest new_from_template_ask
    else failed (unknown_command token)

-- The match on the first two characters of the token in upper case; `rest` is what follows.
unfoldable pub parse_two : Text → ℕ → ℕ → Text → Outcome Control
unfolding parse_letters
parse_two token first second rest =
    let t = first ∷ second ∷ rest in
    if is_column first second t
    then parse_column token rest
    else or_print (slip_of first second t) (parse_letters token first second rest)

abbrev pub parse_shape : Text → Text → Outcome Control
parse_shape token (first ∷ second ∷ rest) = parse_two token first second rest
parse_shape token _ = failed (unknown_command token)

-- What is compared in upper case.
unfoldable pub parse_upper : Text → Text → Outcome Control
parse_upper token t = elim (lookup t words) [ some c ↦ parsed c | none ↦ parse_shape token t ]

-- `K` or `k` and one character.
abbrev pub key_of : Text → Option ℕ
key_of (k ∷ c ∷ []) = if k == b'K' || k == b'k' then some c else none
key_of _ = none

-- `Control::parse_one`
unfoldable pub parse_one : Text → Outcome Control
unfolding parse_upper
parse_one token = elim (strip_prefix text_intro token) [
  | some t ↦ parsed (value (Value.free_text t))
  | none ↦ elim (key_of token) [
    | some c ↦ parsed (key c)
    | none ↦ parse_upper token (map to_ascii_uppercase token)
  ]
]

-- `rest.find(JOIN)`, and what stands before and after it.
abbrev pub cut_join : Text → Option (Text × Text)
cut_join [] = none
cut_join (c ∷ s) = let more = in_front c (cut_join s) in if c == b'/' then some ([], s) else more

-- The loop of `parse`. Every turn but the last takes a `/` from `rest`, so that a turn for each
-- character and one more are enough on every body: `parse_rest_lem`.
unfoldable pub parse_rest : ℕ → Text → Outcome (List Control)
parse_rest zero rest = panics
parse_rest (suc turns) rest = elim (strip_prefix text_intro rest) [
  | some t ↦ bind (parse_one rest) (λ c. parsed (c ∷ []))
  | none ↦ elim (cut_join rest) [
    | none ↦ bind (parse_one rest) (λ c. parsed (c ∷ []))
    | some (token, rest') ↦
        bind (parse_one token) (λ c. bind (parse_rest turns rest') (λ cs. parsed (c ∷ cs)))
  ]
]

-- `parse`
unfoldable pub parse : Text → Outcome (List Control)
unfolding parse_rest trim
parse body =
    let out = parse_rest (length body + 1) body in
    if text_eq (trim body) [] then failed empty_code else out
