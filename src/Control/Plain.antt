-- ===== src/Control/Plain.antt =====
-- control.rs: what commands are spelled with. All but keys and free text take capitals and digits.

use taskologic.Prelude.{
  ◌≡◌, refl, none, some, Bool, true, false, not, ◌&&◌, [], ◌∷◌, ◌++◌, arith, min, max,
}
use taskologic.Prelude.Tests.{◌==◌, leb}
use taskologic.Prelude.Lists.{all}
use taskologic.Prelude.Text.{Text}
use taskologic.Prelude.Strings.{decimal}
use taskologic.Ids.ShortId.{ShortId, IsShortId}
use taskologic.Control.{
  ColumnRef, Value, now, today, time, plus, minus, me, clear, free_text, split_dates, Field, title,
  description, start, due, remind_start, remind_due, assign, checklist, checklist_item,
  exclude_from_stats, start_and_due, SlipChoice, reminder, finish, pause, combo, Control, move_left,
  move_right, move_up, move_down, move_top, move_bottom, move_to, delete, print, assign_me,
  unassign_me, toggle_assign, set, show, edit, selected, sticky, key, named, named_times, dashboard,
  next_board, prev_board, search, ping, undo, insert, replace, value, show_board, analytics,
  start_program, start_program_now, new_from_template, new_from_template_ask, column_code,
  slip_code, unit_code, field_code, named_key_code, encode_value, encode_one, is_text,
}
use taskologic.Control.Spelling.{is_code_char, all-append, decimal-spelled, id-spelled}
use taskologic.Control.Commands.{IsCodable, column-spelled}
use taskologic.Control.RoundTrip.{unit-spelled, key-spelled}

-- A command other than a key and free text.
abbrev pub is_plain : Control → Bool
is_plain (key c) = false
is_plain c = not (is_text c)

-- It begins with a capital, and that is not the one of free text.
abbrev pub has_head : Text → Bool
has_head [] = false
has_head (a ∷ s) = leb b'A' a && leb a b'Z' && not (b'V' == a)

slip-spelled : (s : SlipChoice) → is_code_char (slip_code s) ≡ true
slip-spelled reminder = refl
slip-spelled finish = refl
slip-spelled pause = refl
slip-spelled combo = refl

field-spelled : (f : Field) → all is_code_char (field_code f) ≡ true
field-spelled title = refl
field-spelled description = refl
field-spelled start = refl
field-spelled due = refl
field-spelled remind_start = refl
field-spelled remind_due = refl
field-spelled assign = refl
field-spelled checklist = refl
field-spelled (checklist_item n) = decimal-spelled (min (max n 1) 9)
field-spelled exclude_from_stats = refl
field-spelled start_and_due = refl

id_column-spelled :
    (id : ShortId) (c : ColumnRef)
    → IsShortId id
    → all is_code_char (id.bytes ++ column_code c ∷ []) ≡ true
id_column-spelled id c h =
    all-append is_code_char id.bytes (column_code c ∷ []) (id-spelled id h)
      (ground (arith, column-spelled c))

value-spelled :
    (v : Value)
    → is_plain (value v) ≡ true
    → (has_head (encode_value v) && all is_code_char (encode_value v)) ≡ true
value-spelled now p = refl
value-spelled today p = refl
value-spelled time p = refl
value-spelled (plus n u) p =
    ground (
      arith,
      all-append is_code_char (decimal n) (unit_code u) (decimal-spelled n) (unit-spelled u),
    )
value-spelled (minus n u) p =
    ground (
      arith,
      all-append is_code_char (decimal n) (unit_code u) (decimal-spelled n) (unit-spelled u),
    )
value-spelled me p = refl
value-spelled clear p = refl
value-spelled (free_text t) p = cc
value-spelled split_dates p = refl

pub encode_one-spelled :
    (c : Control)
    → IsCodable c
    → is_plain c ≡ true
    → (has_head (encode_one c) && all is_code_char (encode_one c)) ≡ true
unfolding encode_one
encode_one-spelled move_left h p = refl
encode_one-spelled move_right h p = refl
encode_one-spelled move_up h p = refl
encode_one-spelled move_down h p = refl
encode_one-spelled move_top h p = refl
encode_one-spelled move_bottom h p = refl
encode_one-spelled (move_to none) h p = refl
encode_one-spelled (move_to (some c)) h p = ground (arith, column-spelled c)
encode_one-spelled delete h p = refl
encode_one-spelled (print s) h p = ground (arith, slip-spelled s)
encode_one-spelled assign_me h p = refl
encode_one-spelled unassign_me h p = refl
encode_one-spelled toggle_assign h p = refl
encode_one-spelled (set f) h p = ground (arith, field-spelled f)
encode_one-spelled (show none) h p = refl
encode_one-spelled (show (some id)) h p = ground (arith, id-spelled id h)
encode_one-spelled edit h p = refl
encode_one-spelled selected h p = refl
encode_one-spelled sticky h p = refl
encode_one-spelled (key c) h p = cc
encode_one-spelled (named k) h p = ground (arith, key-spelled k)
encode_one-spelled (named_times k n) h p = ground (
  arith,
  all-append is_code_char (named_key_code k) (decimal n) (key-spelled k) (decimal-spelled n),
)
encode_one-spelled dashboard h p = refl
encode_one-spelled next_board h p = refl
encode_one-spelled prev_board h p = refl
encode_one-spelled (search false) h p = refl
encode_one-spelled (search true) h p = refl
encode_one-spelled ping h p = refl
encode_one-spelled undo h p = refl
encode_one-spelled insert h p = refl
encode_one-spelled replace h p = refl
encode_one-spelled (value v) h p = value-spelled v p
encode_one-spelled (show_board id) h p = ground (arith, id-spelled id h)
encode_one-spelled (analytics id) h p = ground (arith, id-spelled id h)
encode_one-spelled (start_program id) h p = ground (arith, id-spelled id h)
encode_one-spelled (start_program_now id) h p = ground (arith, id-spelled id h)
encode_one-spelled (new_from_template id c) h p = ground (arith, id_column-spelled id c h.0)
encode_one-spelled (new_from_template_ask id c) h p = ground (arith, id_column-spelled id c h.0)
