-- ===== src/Control.antt =====
-- crates/taskologic-core/src/control.rs: control codes, which drive the client, and how they are spelled.
pub mod Names
pub mod Parse
pub mod Layout
pub mod Spelling
pub mod Commands
pub mod RoundTrip
pub mod Plain
pub mod Body
pub mod Cuts
pub mod Panics
pub mod Turns
pub mod Ascii
pub mod Pieces
pub mod Symbols
pub mod Scan
pub mod Read
pub mod Examples
pub mod Tests
use taskologic.Prelude.{
  ℕ, ◌+◌, Option, none, some, Bool, true, false, List, [], ◌∷◌, ◌++◌, map, min, max,
}
use taskologic.Prelude.Text.{Text, text}
use taskologic.Prelude.Strings.{decimal}
use taskologic.Ids.ShortId.{ShortId, as_str}

-- A column by its role, by its place from the left, or the rightmost.
pub data ColumnRef : Type 0 where
  todo paused doing finished : ColumnRef
  index : ℕ → ColumnRef
  last : ColumnRef

pub data OffsetUnit : Type 0 where
  minutes hours days weeks months years : OffsetUnit

-- What a command that waits for a value accepts.
pub data Value : Type 0 where
  now today time : Value
  plus minus : ℕ → OffsetUnit → Value
  me clear : Value
  free_text : Text → Value
  split_dates : Value

pub data Field : Type 0 where
  title description start due remind_start remind_due assign checklist : Field
  checklist_item : ℕ → Field
  exclude_from_stats start_and_due : Field

pub data SlipChoice : Type 0 where
  reminder finish pause combo : SlipChoice

pub data NamedKey : Type 0 where
  up down left right esc enter tab back_tab : NamedKey
  f_key : ℕ → NamedKey

pub data Control : Type 0 where
  move_left move_right move_up move_down move_top move_bottom : Control
  move_to : Option ColumnRef → Control
  delete : Control
  print : SlipChoice → Control
  assign_me unassign_me toggle_assign : Control
  set : Field → Control
  show : Option ShortId → Control
  edit selected sticky : Control
  key : ℕ → Control
  named : NamedKey → Control
  named_times : NamedKey → ℕ → Control
  dashboard next_board prev_board : Control
  search : Bool → Control  -- archive
  ping undo insert replace : Control
  value : Value → Control
  show_board analytics start_program start_program_now : ShortId → Control
  new_from_template new_from_template_ask : ShortId → ColumnRef → Control

-- `ColumnRef::code`
abbrev pub column_code : ColumnRef → ℕ
column_code todo = b'T'
column_code paused = b'P'
column_code doing = b'D'
column_code finished = b'F'
column_code (index n) = b'0' + min (max n 1) 9
column_code last = b'L'

-- `Unit::code`
abbrev pub unit_code : OffsetUnit → Text
unit_code minutes = []
unit_code hours = text "H"
unit_code days = text "D"
unit_code weeks = text "W"
unit_code months = text "MO"
unit_code years = text "Y"

-- What introduces free text.
abbrev pub text_intro : Text
text_intro = text "V."

-- `Value::encode`
abbrev pub encode_value : Value → Text
encode_value now = text "N"
encode_value today = text "TD"
encode_value time = text "TM"
encode_value (plus n u) = b'P' ∷ decimal n ++ unit_code u
encode_value (minus n u) = b'M' ∷ decimal n ++ unit_code u
encode_value me = text "ME"
encode_value clear = text "X"
encode_value (free_text t) = b'V' ∷ b'.' ∷ t
encode_value split_dates = text "U"

-- `Field::code`
abbrev pub field_code : Field → Text
field_code title = text "T"
field_code description = text "D"
field_code start = text "S"
field_code due = text "U"
field_code remind_start = text "RS"
field_code remind_due = text "RU"
field_code assign = text "A"
field_code checklist = text "C"
field_code (checklist_item n) = b'C' ∷ decimal (min (max n 1) 9)
field_code exclude_from_stats = text "X"
field_code start_and_due = text "B"

-- `SlipChoice::code`
abbrev pub slip_code : SlipChoice → ℕ
slip_code reminder = b'R'
slip_code finish = b'F'
slip_code pause = b'P'
slip_code combo = b'C'

-- `NamedKey::code`
abbrev pub named_key_code : NamedKey → Text
named_key_code up = text "U"
named_key_code down = text "D"
named_key_code left = text "L"
named_key_code right = text "R"
named_key_code esc = text "E"
named_key_code enter = text "N"
named_key_code tab = text "T"
named_key_code back_tab = text "B"
named_key_code (f_key n) = b'F' ∷ decimal n

-- `Control::encode`: the command as it sits in a frame.
unfoldable pub encode_one : Control → Text
encode_one move_left = text "ML"
encode_one move_right = text "MR"
encode_one move_up = text "MU"
encode_one move_down = text "MD"
encode_one move_top = text "MT"
encode_one move_bottom = text "MB"
encode_one (move_to none) = text "MC"
encode_one (move_to (some c)) = b'M' ∷ b'C' ∷ column_code c ∷ []
encode_one delete = text "DEL"
encode_one (print s) = b'P' ∷ slip_code s ∷ []
encode_one assign_me = text "AM"
encode_one unassign_me = text "AU"
encode_one toggle_assign = text "AT"
encode_one (set f) = b'S' ∷ field_code f
encode_one (show none) = text "SH"
encode_one (show (some id)) = b'S' ∷ b'H' ∷ as_str id
encode_one selected = text "SEL"
encode_one edit = text "ED"
encode_one sticky = text "STK"
encode_one (key c) = b'K' ∷ c ∷ []
encode_one (named k) = b'X' ∷ named_key_code k
encode_one (named_times k n) = b'X' ∷ named_key_code k ++ decimal n
encode_one dashboard = text "GD"
encode_one next_board = text "GN"
encode_one prev_board = text "GP"
encode_one (search false) = text "Q"
encode_one (search true) = text "QA"
encode_one ping = text "PING"
encode_one undo = text "UNDO"
encode_one insert = text "I"
encode_one replace = text "R"
encode_one (value v) = encode_value v
encode_one (show_board id) = b'G' ∷ b'B' ∷ as_str id
encode_one (analytics id) = b'G' ∷ b'A' ∷ as_str id
encode_one (start_program id) = b'R' ∷ b'P' ∷ as_str id
encode_one (start_program_now id) = b'R' ∷ b'N' ∷ as_str id
encode_one (new_from_template id c) = b'N' ∷ b'T' ∷ as_str id ++ column_code c ∷ []
encode_one (new_from_template_ask id c) = b'N' ∷ b'A' ∷ as_str id ++ column_code c ∷ []

-- The commands joined.
unfoldable pub body : List Control → Text
body [] = []
body (c ∷ []) = encode_one c
body (c ∷ d ∷ cs) = encode_one c ++ b'/' ∷ body (d ∷ cs)

abbrev pub frame : Text
frame = text "--"

abbrev pub version_1 : ℕ
version_1 = b'1'

-- The whole printed payload.
unfoldable pub encode : List Control → Text
encode cs = frame ++ version_1 ∷ body cs ++ frame

-- `Value::is_text`, of a command
abbrev pub is_text : Control → Bool
is_text (value (free_text t)) = true
is_text _ = false

-- `Control::wants_value`
abbrev pub wants_value : Control → Bool
wants_value (search archive) = true
wants_value insert = true
wants_value replace = true
wants_value _ = false
