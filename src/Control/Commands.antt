-- ===== src/Control/Commands.antt =====
-- control.rs: `Control::parse_one` reads what `Control::encode` writes.
use mathlib.Core.List.{map}
use taskologic.Prelude.{
  ℕ, suc, ◌+◌, ◌-◌, ◌^◌, ◌≤◌, ◌<◌, ◌≡◌, refl, sym, ap, ◌∙◌, subst, none, some, true, false, ◌&&◌,
  ◌||◌, [], ◌∷◌, ◌++◌, arith,
}
use taskologic.Prelude.Tests.{◌==◌, ltb, leb, if◌then◌else◌}
use taskologic.Prelude.Lists.{all, length, length-append}
use taskologic.Prelude.Text.{Text, to_ascii_uppercase}
use taskologic.Prelude.Strings.{len_utf8, byte_len, split_at, span_digits, decimal}
use taskologic.Prelude.Decimal.{decimal-digits}
use taskologic.Ids.ShortId.{ShortId, IsShortId}
use taskologic.Ids.ShortId.Parse.{parse-as_str}
use taskologic.Control.{
  ColumnRef, todo, paused, doing, finished, index, last, OffsetUnit, minutes, hours, days, weeks,
  months, years, Value, plus, minus, Field, checklist_item, NamedKey, f_key, Control, move_to, set,
  show, named, named_times, value, show_board, analytics, start_program, start_program_now,
  new_from_template, new_from_template_ask, column_code, unit_code,
}
use taskologic.Control.Names.{lookup, words, column_from_code, unit_from_code}
use taskologic.Control.Parse.{
  parsed, bind, id_after, parse_offset, parse_template, parse_two, parse_upper, parse_one, key_of,
}
use taskologic.Control.Spelling.{
  is_code_char, all-append, map-upper_spelled, byte_len-spelled, id-spelled, id-cons,
  parse_unsigned-decimal, span_digits-append,
}

-- The values that a command can be printed with: `code` clamps a column or an item that is not a
-- digit, a count is for the keys that are not numbered, and a short id is one that the code builds.
abbrev pub IsColumn : ColumnRef → Type 0
IsColumn (index n) = (1 ≤ n) × (n ≤ 9)
IsColumn _ = Unit

abbrev pub IsValue : Value → Type 0
IsValue (plus n u) = n < 2 ^ 32
IsValue (minus n u) = n < 2 ^ 32
IsValue _ = Unit

abbrev pub IsField : Field → Type 0
IsField (checklist_item n) = (1 ≤ n) × (n ≤ 9)
IsField _ = Unit

abbrev pub IsNamed : NamedKey → Type 0
IsNamed (f_key n) = (1 ≤ n) × (n ≤ 12)
IsNamed _ = Unit

abbrev pub IsTimes : NamedKey → ℕ → Type 0
IsTimes (f_key m) n = ⊥
IsTimes _ n = (1 ≤ n) × (n ≤ 99)

abbrev pub IsCodable : Control → Type 0
IsCodable (move_to (some c)) = IsColumn c
IsCodable (set f) = IsField f
IsCodable (show (some id)) = IsShortId id
IsCodable (named k) = IsNamed k
IsCodable (named_times k n) = IsTimes k n
IsCodable (value v) = IsValue v
IsCodable (show_board id) = IsShortId id
IsCodable (analytics id) = IsShortId id
IsCodable (start_program id) = IsShortId id
IsCodable (start_program_now id) = IsShortId id
IsCodable (new_from_template id c) = IsShortId id × IsColumn c
IsCodable (new_from_template_ask id c) = IsShortId id × IsColumn c
IsCodable _ = Unit

-- A token that is spelled in capitals and digits, and is no word, is read by its first two characters.
key_of-other : (k : ℕ) (s : Text) → (k == b'K' || k == b'k') ≡ false → key_of (k ∷ s) ≡ none
key_of-other k [] h = refl
key_of-other k (c ∷ []) h = rw h refl
key_of-other k (c ∷ d ∷ s) h = refl

pub by_two :
    (a b : ℕ) (rest : Text)
    → (a == b'K' || a == b'k') ≡ false
    → (b'V' == a) ≡ false
    → all is_code_char (a ∷ b ∷ rest) ≡ true
    → lookup (a ∷ b ∷ rest) words ≡ none
    → parse_one (a ∷ b ∷ rest) ≡ parse_two (a ∷ b ∷ rest) a b rest
unfolding parse_one parse_upper
by_two a b rest k v u l =
    let token = a ∷ b ∷ rest in
    let opened : parse_one token ≡ parse_upper token (map to_ascii_uppercase token) =
      rw (parse_one, v, key_of-other a (b ∷ rest) k) refl in
    let read : parse_upper token token ≡ parse_two token a b rest = rw (parse_upper, l) refl in
    opened ∙ ap (parse_upper token) (map-upper_spelled token u) ∙ read

-- The codes of columns.
pub column-spelled : (c : ColumnRef) → is_code_char (column_code c) ≡ true
column-spelled todo = refl
column-spelled paused = refl
column-spelled doing = refl
column-spelled finished = refl
column-spelled (index n) = ground arith
column-spelled last = refl

pub column_from_code-code : (c : ColumnRef) → IsColumn c → column_from_code (column_code c) ≡ some c
unfolding to_ascii_uppercase
column_from_code-code todo h = refl
column_from_code-code paused h = refl
column_from_code-code doing h = refl
column_from_code-code finished h = refl
column_from_code-code (index n) h = ground arith
column_from_code-code last h = refl

-- Short ids after two letters.
id_after-as_str : (token : Text) (id : ShortId) → IsShortId id → id_after token id.bytes ≡ parsed id
id_after-as_str token id h = rw (id_after, parse-as_str id h) refl

long : (id : ShortId) → IsShortId id → leb (byte_len id.bytes + 2) 3 ≡ false
long id h = ground (arith, byte_len-spelled id.bytes (id-spelled id h), h.six)

pub with_id :
    (a b : ℕ) (id : ShortId) (command : ShortId → Control)
    → IsShortId id
    → (a == b'K' || a == b'k') ≡ false
    → (b'V' == a) ≡ false
    → (is_code_char a && is_code_char b) ≡ true
    → ((c : ℕ) (s : Text) → lookup (a ∷ b ∷ c ∷ s) words ≡ none)
    → ((token rest : Text)
        → leb (byte_len rest + 2) 3 ≡ false
        → parse_two token a b rest ≡ bind (id_after token rest) (λ i. parsed (command i)))
    → parse_one (a ∷ b ∷ id.bytes) ≡ parsed (command id)
with_id a b id command h k v u l p =
    let (c, s, e) = id-cons id h in
    by_two a b id.bytes k v (ground (arith, id-spelled id h)) (rw e (l c s))
    ∙ p (a ∷ b ∷ id.bytes) id.bytes (long id h)
    ∙ rw (id_after-as_str (a ∷ b ∷ id.bytes) id h) refl

-- A template's short id and a column.
pub split_at-append :
    (s t : Text) → all is_code_char s ≡ true → split_at (s ++ t) (length s) ≡ some (s, t)
split_at-append [] t h = refl
split_at-append (c ∷ s) t h =
    let byte : len_utf8 c ≡ 1 = ground (arith, h) in
    let all-rest : all is_code_char s ≡ true = ground (arith, h) in
    let less : suc (length s) - 1 ≡ length s = omega arith in
    let room : ltb (suc (length s)) 1 ≡ false = ground arith in
    rw (byte, room, less, split_at-append s t all-rest) refl

pub with_template :
    (b : ℕ) (id : ShortId) (c : ColumnRef) (command : ShortId → ColumnRef → Control)
    → IsShortId id
    → IsColumn c
    → is_code_char b ≡ true
    → ((d : ℕ) (s : Text) → lookup (b'N' ∷ b ∷ d ∷ s) words ≡ none)
    → ((token rest : Text) → parse_two token b'N' b rest ≡ parse_template token rest command)
    → parse_one (b'N' ∷ b ∷ id.bytes ++ column_code c ∷ []) ≡ parsed (command id c)
with_template b id c command h k u l p =
    let rest = id.bytes ++ column_code c ∷ [] in
    let spelled =
      all-append is_code_char id.bytes (column_code c ∷ []) (id-spelled id h)
        (ground (arith, column-spelled c)) in
    let n : byte_len rest - 1 ≡ length id.bytes =
      omega (arith, byte_len-spelled rest spelled, length-append id.bytes (column_code c ∷ [])) in
    let cut = split_at-append id.bytes (column_code c ∷ []) (id-spelled id h) in
    let (d, s, e) = id-cons id h in
    by_two b'N' b rest refl refl (ground (arith, spelled)) (
      subst (λ t. lookup (b'N' ∷ b ∷ t ++ column_code c ∷ []) words ≡ none) (sym e)
        (l d (s ++ column_code c ∷ [])))
    ∙ p (b'N' ∷ b ∷ rest) rest
    ∙ rw (parse_template, n, cut, id_after-as_str (b'N' ∷ b ∷ rest) id h, column_from_code-code c k)
        refl

-- Plus and minus.
unit-span : (u : OffsetUnit) → span_digits (unit_code u) ≡ ([], unit_code u)
unit-span minutes = refl
unit-span hours = refl
unit-span days = refl
unit-span weeks = refl
unit-span months = refl
unit-span years = refl

unit-code_back : (u : OffsetUnit) → unit_from_code (unit_code u) ≡ some u
unfolding to_ascii_uppercase
unit-code_back minutes = refl
unit-code_back hours = refl
unit-code_back days = refl
unit-code_back weeks = refl
unit-code_back months = refl
unit-code_back years = refl

pub offset-code :
    (sign n : ℕ) (u : OffsetUnit)
    → n < 2 ^ 32
    → parse_offset (sign ∷ decimal n ++ unit_code u)
      ≡ some (value (if sign == b'P' then plus n u else minus n u))
offset-code sign n u h =
    rw
      (
        parse_offset,
        span_digits-append (decimal n) (unit_code u) (decimal-digits n) (unit-span u),
        parse_unsigned-decimal (2 ^ 32) n h (omega arith),
        unit-code_back u,
      )
      refl
