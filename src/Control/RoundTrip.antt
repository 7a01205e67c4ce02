-- ===== src/Control/RoundTrip.antt =====
-- control.rs: every command that a code can carry is read back from its spelling.

use taskologic.Prelude.{
  ℕ, ◌+◌, ◌^◌, ◌≤◌, ◌<◌, ◌≡◌, ◌⊎◌, inl, inr, refl, sym, ap, ◌∙◌, subst, none, some, true, false,
  not, ◌&&◌, [], ◌∷◌, ◌++◌, arith, min, max,
}
use taskologic.Prelude.Tests.{◌==◌, leb, if◌then◌else◌}
use taskologic.Prelude.Lists.{all}
use taskologic.Prelude.Text.{Text, to_ascii_uppercase}
use taskologic.Prelude.Strings.{
  len_utf8, byte_len, is_ascii_digit, parse_unsigned, decimal, decimal_loop,
}
use taskologic.Prelude.Decimal.{IsAsciiDigit}
use taskologic.Control.{
  ColumnRef, OffsetUnit, minutes, hours, days, weeks, months, years, Value, now, today, time, plus,
  minus, me, clear, free_text, split_dates, Field, title, description, start, due, remind_start,
  remind_due, assign, checklist, checklist_item, exclude_from_stats, start_and_due, SlipChoice,
  reminder, finish, pause, combo, NamedKey, up, down, left, right, esc, enter, tab, back_tab, f_key,
  Control, move_left, move_right, move_up, move_down, move_top, move_bottom, move_to, delete, print,
  assign_me, unassign_me, toggle_assign, set, show, edit, selected, sticky, key, named, named_times,
  dashboard, next_board, prev_board, search, ping, undo, insert, replace, value, show_board,
  analytics, start_program, start_program_now, new_from_template, new_from_template_ask,
  column_code, slip_code, unit_code, field_code, named_key_code, encode_one,
}
use taskologic.Control.Names.{lookup, words, key_from_code, in_range, field_from_code}
use taskologic.Control.Parse.{
  parsed, or_bad, parse_offset, parse_key, parse_two, parse_letters, parse_upper, parse_one,
}
use taskologic.Control.Spelling.{
  is_code_char, all-append, decimal-spelled, decimal-cons, parse_unsigned-decimal,
}
use taskologic.Control.Commands.{
  IsColumn, IsValue, IsField, IsNamed, IsTimes, IsCodable, by_two, with_id, with_template,
  offset-code, column_from_code-code, column-spelled,
}

two_signs : (P : ℕ → Type 0) → P b'P' → P b'M' → (sign : ℕ) → (sign ≡ b'P') ⊎ (sign ≡ b'M') → P sign
two_signs P p m sign (inl e) = subst P (sym e) p
two_signs P p m sign (inr e) = subst P (sym e) m

-- No word is a sign and a digit.
offset-no_word :
    (c : ℕ) (rest : Text)
    → IsAsciiDigit c
    → (sign : ℕ) → (sign ≡ b'P') ⊎ (sign ≡ b'M')
    → lookup (sign ∷ c ∷ rest) words ≡ none
offset-no_word c rest d =
    two_signs (λ sign. lookup (sign ∷ c ∷ rest) words ≡ none) (ground arith) (ground arith)

offset_two :
    (token : Text) (c : ℕ) (rest : Text)
    → IsAsciiDigit c
    → (sign : ℕ) → (sign ≡ b'P') ⊎ (sign ≡ b'M')
    → parse_two token sign c rest ≡ or_bad token (parse_offset (sign ∷ c ∷ rest))
unfolding parse_two parse_letters
offset_two token c rest d =
    let digit : is_ascii_digit c ≡ true = ground arith in
    two_signs (λ sign. parse_two token sign c rest ≡ or_bad token (parse_offset (sign ∷ c ∷ rest)))
      (ground arith) (ground arith)

pub unit-spelled : (u : OffsetUnit) → all is_code_char (unit_code u) ≡ true
unit-spelled minutes = refl
unit-spelled hours = refl
unit-spelled days = refl
unit-spelled weeks = refl
unit-spelled months = refl
unit-spelled years = refl

with_offset :
    (sign n : ℕ) (u : OffsetUnit)
    → (sign ≡ b'P') ⊎ (sign ≡ b'M')
    → n < 2 ^ 32
    → parse_one (sign ∷ decimal n ++ unit_code u)
      ≡ parsed (value (if sign == b'P' then plus n u else minus n u))
with_offset sign n u s h =
    let (c, ds, e, d) = decimal-cons n in
    let rest = ds ++ unit_code u in
    let split : sign ∷ decimal n ++ unit_code u ≡ sign ∷ c ∷ rest =
      ap (λ t. sign ∷ t ++ unit_code u) e in
    let spelled =
      all-append is_code_char (decimal n) (unit_code u) (decimal-spelled n) (unit-spelled u) in
    let spelled' : all is_code_char (sign ∷ c ∷ rest) ≡ true =
      subst (λ t. all is_code_char t ≡ true) split (ground (arith, spelled)) in
    ap parse_one split
    ∙ by_two sign c rest (ground arith) (ground arith) spelled' (offset-no_word c rest d sign s)
    ∙ offset_two (sign ∷ c ∷ rest) c rest d sign s
    ∙ ap (λ t. or_bad (sign ∷ c ∷ rest) (parse_offset t)) (sym split)
    ∙ ap (or_bad (sign ∷ c ∷ rest)) (offset-code sign n u h)

-- Keys.
pub key-spelled : (k : NamedKey) → all is_code_char (named_key_code k) ≡ true
key-spelled up = refl
key-spelled down = refl
key-spelled left = refl
key-spelled right = refl
key-spelled esc = refl
key-spelled enter = refl
key-spelled tab = refl
key-spelled back_tab = refl
key-spelled (f_key n) = decimal-spelled n

-- What follows `X` is read as a key, or as a letter and a count.
with_key :
    (l : ℕ) (rest : Text) (command : Control)
    → all is_code_char (l ∷ rest) ≡ true
    → ((token : Text) → parse_key token (l ∷ rest) ≡ parsed command)
    → parse_one (b'X' ∷ l ∷ rest) ≡ parsed command
unfolding parse_two parse_letters
with_key l rest command u p = by_two b'X' l rest refl refl u refl ∙ p (b'X' ∷ l ∷ rest)

f_key-code : (n : ℕ) → 1 ≤ n → n ≤ 12 → key_from_code (b'F' ∷ decimal n) ≡ some (f_key n)
f_key-code n h k =
    rw (key_from_code, parse_unsigned-decimal (2 ^ 8) n (omega arith) (omega arith)) (ground arith)

-- A letter and a number is no key, unless the letter is F.
times-code :
    (token : Text) (l n : ℕ) (k : NamedKey)
    → (is_code_char l && not (l == b'F')) ≡ true
    → key_from_code (l ∷ []) ≡ some k
    → 1 ≤ n
    → n ≤ 99
    → parse_key token (l ∷ decimal n) ≡ parsed (named_times k n)
times-code token l n k u e h m =
    let (c, s, d, _) = decimal-cons n in
    let none_such : key_from_code (l ∷ c ∷ s) ≡ none = ground arith in
    let byte : len_utf8 l ≡ 1 = ground arith in
    let number = parse_unsigned-decimal (2 ^ 8) n (omega arith) (omega arith) in
    let range : in_range 99 (some n) ≡ some n = ground arith in
    let no_key : key_from_code (l ∷ decimal n) ≡ none =
      ap (λ t. key_from_code (l ∷ t)) d ∙ none_such in
    rw (parse_key, no_key, byte, number, range, e) refl

times-read :
    (l n : ℕ) (k : NamedKey)
    → (is_code_char l && not (l == b'F')) ≡ true
    → key_from_code (l ∷ []) ≡ some k
    → IsTimes up n
    → parse_one (b'X' ∷ l ∷ decimal n) ≡ parsed (named_times k n)
times-read l n k u e (h, m) =
    with_key l (decimal n) (named_times k n) (ground (arith, decimal-spelled n))
      (λ token. times-code token l n k u e h m)

-- Numbers of one digit.
decimal_small : (n : ℕ) → n < 10 → decimal n ≡ (b'0' + n) ∷ []
unfolding decimal decimal_loop
decimal_small n h = ground arith

pub column-read :
    (c : ColumnRef)
    → IsColumn c
    → parse_one (b'M' ∷ b'C' ∷ column_code c ∷ []) ≡ parsed (move_to (some c))
unfolding parse_two parse_letters
column-read c h =
    let code = column_code c in
    let spelled = column-spelled c in
    let byte : byte_len (b'M' ∷ b'C' ∷ code ∷ []) ≡ 3 = ground arith in
    by_two b'M' b'C' (code ∷ []) refl refl (ground arith) refl
    ∙ rw (parse_two, byte, column_from_code-code c h) refl

item-read :
    (n : ℕ)
    → 1 ≤ n
    → n ≤ 9
    → parse_one (b'S' ∷ b'C' ∷ (b'0' + n) ∷ []) ≡ parsed (set (checklist_item n))
unfolding parse_two parse_letters
item-read n h k =
    let byte : leb (byte_len (b'S' ∷ b'C' ∷ (b'0' + n) ∷ [])) 3 ≡ true = ground arith in
    let field : field_from_code (b'C' ∷ (b'0' + n) ∷ []) ≡ some (checklist_item n) = ground arith in
    by_two b'S' b'C' ((b'0' + n) ∷ []) refl refl (ground arith) refl
    ∙ rw (parse_two, byte, field) refl

field-read : (f : Field) → IsField f → parse_one (b'S' ∷ field_code f) ≡ parsed (set f)
unfolding parse_one parse_upper parse_two parse_letters to_ascii_uppercase
field-read title h = refl
field-read description h = refl
field-read start h = refl
field-read due h = refl
field-read remind_start h = refl
field-read remind_due h = refl
field-read assign h = refl
field-read checklist h = refl
field-read (checklist_item n) (h, k) =
    let clamped : min (max n 1) 9 ≡ n = omega arith in
    rw (clamped, decimal_small n (omega arith)) (item-read n h k)
field-read exclude_from_stats h = refl
field-read start_and_due h = refl

key-read : (k : NamedKey) → IsNamed k → parse_one (b'X' ∷ named_key_code k) ≡ parsed (named k)
unfolding parse_one parse_upper parse_two parse_letters to_ascii_uppercase parse_unsigned
key-read up h = refl
key-read down h = refl
key-read left h = refl
key-read right h = refl
key-read esc h = refl
key-read enter h = refl
key-read tab h = refl
key-read back_tab h = refl
key-read (f_key n) (h, k) =
    with_key b'F' (decimal n) (named (f_key n)) (decimal-spelled n)
      (λ token. rw (parse_key, f_key-code n h k) refl)

count-read :
    (k : NamedKey) (n : ℕ)
    → IsTimes k n
    → parse_one (b'X' ∷ named_key_code k ++ decimal n) ≡ parsed (named_times k n)
unfolding parse_unsigned
count-read up n h = times-read b'U' n up refl refl h
count-read down n h = times-read b'D' n down refl refl h
count-read left n h = times-read b'L' n left refl refl h
count-read right n h = times-read b'R' n right refl refl h
count-read esc n h = times-read b'E' n esc refl refl h
count-read enter n h = times-read b'N' n enter refl refl h
count-read tab n h = times-read b'T' n tab refl refl h
count-read back_tab n h = times-read b'B' n back_tab refl refl h
count-read (f_key m) n h = absurd h

value-read : (v : Value) → IsValue v → parse_one (encode_one (value v)) ≡ parsed (value v)
unfolding encode_one parse_one parse_upper parse_two parse_letters to_ascii_uppercase
value-read now h = refl
value-read today h = refl
value-read time h = refl
value-read (plus n u) h = with_offset b'P' n u (inl refl) h
value-read (minus n u) h = with_offset b'M' n u (inr refl) h
value-read me h = refl
value-read clear h = refl
value-read (free_text t) h = refl
value-read split_dates h = refl

slip-read : (s : SlipChoice) → parse_one (b'P' ∷ slip_code s ∷ []) ≡ parsed (print s)
unfolding parse_one parse_upper parse_two parse_letters to_ascii_uppercase
slip-read reminder = refl
slip-read finish = refl
slip-read pause = refl
slip-read combo = refl

-- Every command that a code can carry is read back from its spelling.
pub parse_one-encode_one : (c : Control) → IsCodable c → parse_one (encode_one c) ≡ parsed c
unfolding encode_one parse_one parse_upper parse_two parse_letters to_ascii_uppercase
parse_one-encode_one move_left h = refl
parse_one-encode_one move_right h = refl
parse_one-encode_one move_up h = refl
parse_one-encode_one move_down h = refl
parse_one-encode_one move_top h = refl
parse_one-encode_one move_bottom h = refl
parse_one-encode_one (move_to none) h = refl
parse_one-encode_one (move_to (some c)) h = column-read c h
parse_one-encode_one delete h = refl
parse_one-encode_one (print s) h = slip-read s
parse_one-encode_one assign_me h = refl
parse_one-encode_one unassign_me h = refl
parse_one-encode_one toggle_assign h = refl
parse_one-encode_one (set f) h = field-read f h
parse_one-encode_one (show none) h = refl
parse_one-encode_one (show (some id)) h =
    with_id b'S' b'H' id (λ i. show (some i)) h refl refl refl (λ c s. refl)
      (λ token rest m.
        let more : leb (1 + (1 + byte_len rest)) 3 ≡ false = ground arith in
        rw (parse_two, more) refl)
parse_one-encode_one edit h = refl
parse_one-encode_one selected h = refl
parse_one-encode_one sticky h = refl
parse_one-encode_one (key c) h = refl
parse_one-encode_one (named k) h = key-read k h
parse_one-encode_one (named_times k n) h = count-read k n h
parse_one-encode_one dashboard h = refl
parse_one-encode_one next_board h = refl
parse_one-encode_one prev_board h = refl
parse_one-encode_one (search false) h = refl
parse_one-encode_one (search true) h = refl
parse_one-encode_one ping h = refl
parse_one-encode_one undo h = refl
parse_one-encode_one insert h = refl
parse_one-encode_one replace h = refl
parse_one-encode_one (value v) h = value-read v h
parse_one-encode_one (show_board id) h =
    with_id b'G' b'B' id show_board h refl refl refl (λ c s. refl) (λ token rest m. refl)
parse_one-encode_one (analytics id) h =
    with_id b'G' b'A' id analytics h refl refl refl (λ c s. refl) (λ token rest m. refl)
parse_one-encode_one (start_program id) h =
    with_id b'R' b'P' id start_program h refl refl refl (λ c s. refl) (λ token rest m. refl)
parse_one-encode_one (start_program_now id) h =
    with_id b'R' b'N' id start_program_now h refl refl refl (λ c s. refl) (λ token rest m. refl)
parse_one-encode_one (new_from_template id c) (h, k) =
    with_template b'T' id c new_from_template h k refl (λ d s. refl) (λ token rest. refl)
parse_one-encode_one (new_from_template_ask id c) (h, k) =
    with_template b'A' id c new_from_template_ask h k refl (λ d s. refl) (λ token rest. refl)
