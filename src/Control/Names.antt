-- ===== src/Control/Names.antt =====
-- control.rs: the names of columns, units, fields, keys and commands, looked up.
use taskologic.Prelude.{ℕ, ◌-◌, ◌^◌, Option, none, some, true, false, ◌&&◌, List, [], ◌∷◌, map}
use taskologic.Prelude.Tests.{◌==◌, leb, if◌then◌else◌}
use taskologic.Prelude.Text.{Text, text, text_eq, to_ascii_uppercase}
use taskologic.Prelude.Strings.{strip_prefix, parse_unsigned}
use taskologic.Control.{
  ColumnRef, OffsetUnit, Value, Field, SlipChoice, NamedKey, Control, move_to, show, value,
}

-- The value of a key in an association list, as a `match` on a string picks its arm.
abbrev pub lookup : {A : Type 0} → Text → List (Text × A) → Option A
lookup t [] = none
lookup t ((s, a) ∷ rest) = if text_eq t s then some a else lookup t rest

-- `ColumnRef::from_code`. The code of a digit is the digit, in either case.
abbrev pub column_from_code : ℕ → Option ColumnRef
column_from_code c =
    let u = to_ascii_uppercase c in
    if u == b'T'
    then some ColumnRef.todo
    else if u == b'P'
    then some ColumnRef.paused
    else if u == b'D'
    then some ColumnRef.doing
    else if u == b'F'
    then some ColumnRef.finished
    else if leb b'1' u && leb u b'9'
    then some (ColumnRef.index (c - b'0'))
    else if u == b'L'
    then some ColumnRef.last
    else none

-- `Unit::from_code`
abbrev pub unit_from_code : Text → Option OffsetUnit
unit_from_code s = lookup (map to_ascii_uppercase s) (
    ([], OffsetUnit.minutes)
    ∷ (text "H", OffsetUnit.hours)
    ∷ (text "D", OffsetUnit.days)
    ∷ (text "W", OffsetUnit.weeks)
    ∷ (text "MO", OffsetUnit.months)
    ∷ (text "Y", OffsetUnit.years)
    ∷ [])

abbrev pub field_words : List (Text × Field)
field_words =
    (text "T", Field.title)
    ∷ (text "D", Field.description)
    ∷ (text "S", Field.start)
    ∷ (text "U", Field.due)
    ∷ (text "RS", Field.remind_start)
    ∷ (text "RU", Field.remind_due)
    ∷ (text "A", Field.assign)
    ∷ (text "C", Field.checklist)
    ∷ (text "X", Field.exclude_from_stats)
    ∷ (text "B", Field.start_and_due)
    ∷ []

-- `C` and one digit other than 0, and nothing else.
abbrev pub item_from_code : Text → Option Field
item_from_code (c ∷ d ∷ []) =
    if c == b'C' && leb b'1' d && leb d b'9' then some (Field.checklist_item (d - b'0')) else none
item_from_code _ = none

-- `Field::from_code`
abbrev pub field_from_code : Text → Option Field
field_from_code s = elim (lookup s field_words) [ none ↦ item_from_code s | some f ↦ some f ]

-- `SlipChoice::from_code`
abbrev pub slip_from_code : ℕ → Option SlipChoice
slip_from_code c =
    if c == b'R'
    then some SlipChoice.reminder
    else if c == b'F'
    then some SlipChoice.finish
    else if c == b'P'
    then some SlipChoice.pause
    else if c == b'C'
    then some SlipChoice.combo
    else none

abbrev pub key_words : List (Text × NamedKey)
key_words =
    (text "U", NamedKey.up)
    ∷ (text "D", NamedKey.down)
    ∷ (text "L", NamedKey.left)
    ∷ (text "R", NamedKey.right)
    ∷ (text "E", NamedKey.esc)
    ∷ (text "N", NamedKey.enter)
    ∷ (text "T", NamedKey.tab)
    ∷ (text "B", NamedKey.back_tab)
    ∷ []

-- `filter`, on a number from 1 to a most.
abbrev pub in_range : ℕ → Option ℕ → Option ℕ
in_range most none = none
in_range most (some n) = if leb 1 n && leb n most then some n else none

abbrev pub f_key_from : Option ℕ → Option NamedKey
f_key_from none = none
f_key_from (some n) = some (NamedKey.f_key n)

abbrev pub u8_from : Option Text → Option ℕ
u8_from none = none
u8_from (some s) = parse_unsigned (2 ^ 8) s

-- `NamedKey::from_code`
abbrev pub key_from_code : Text → Option NamedKey
key_from_code c = elim (lookup c key_words) [
  | none ↦ f_key_from (in_range 12 (u8_from (strip_prefix (text "F") c)))
  | some k ↦ some k
]

-- The commands of one fixed spelling.
abbrev pub words : List (Text × Control)
words =
    (text "ML", Control.move_left)
    ∷ (text "MR", Control.move_right)
    ∷ (text "MU", Control.move_up)
    ∷ (text "MD", Control.move_down)
    ∷ (text "MT", Control.move_top)
    ∷ (text "MB", Control.move_bottom)
    ∷ (text "MC", move_to none)
    ∷ (text "DEL", Control.delete)
    ∷ (text "AM", Control.assign_me)
    ∷ (text "AU", Control.unassign_me)
    ∷ (text "AT", Control.toggle_assign)
    ∷ (text "SH", show none)
    ∷ (text "SEL", Control.selected)
    ∷ (text "ED", Control.edit)
    ∷ (text "STK", Control.sticky)
    ∷ (text "GD", Control.dashboard)
    ∷ (text "GN", Control.next_board)
    ∷ (text "GP", Control.prev_board)
    ∷ (text "Q", Control.search false)
    ∷ (text "QA", Control.search true)
    ∷ (text "PING", Control.ping)
    ∷ (text "UNDO", Control.undo)
    ∷ (text "I", Control.insert)
    ∷ (text "R", Control.replace)
    ∷ (text "N", value Value.now)
    ∷ (text "TD", value Value.today)
    ∷ (text "TM", value Value.time)
    ∷ (text "ME", value Value.me)
    ∷ (text "X", value Value.clear)
    ∷ (text "U", value Value.split_dates)
    ∷ []
