-- ===== src/Client.antt =====
-- crates/taskologic/src/control.rs: what the client remembers between control codes, and what it makes
-- of their values.
pub mod Waits
pub mod Tests
use taskologic.Prelude.{
  ℕ, zero, suc, ◌+◌, ◌-◌, ◌*◌, ◌%◌, ◌^◌, Option, none, some, Bool, true, false, not, ◌&&◌, ◌||◌,
  List, [], ◌∷◌,
}
use taskologic.Prelude.Tests.{ltb, if◌then◌else◌}
use taskologic.Prelude.Lists.{length}
use taskologic.Prelude.Result.{Result, ok, err}
use taskologic.Prelude.Text.{Text, trim}
use taskologic.Prelude.Strings.{parse_unsigned}
use taskologic.Prelude.Int.{ℤ}
use taskologic.Ids.{TaskId, ColumnId}
use taskologic.Task.{TaskDraft}
use taskologic.Board.{is_some}
use taskologic.Control.{
  Control, Value, clear, free_text, plus, split_dates, OffsetUnit, minutes, hours, days, weeks,
  months, years,
}

pub data Waiting : Type 0 where
  insert replace : Waiting
  search : Bool → Waiting

pub record Armed : Type 0 where
  pub command : Control
  pub values : List Value
  pub sticky : Bool

-- How to take back one change.
pub data UndoStep : Type 0 where
  move : TaskId → ColumnId → ℤ → UndoStep  -- the column and the position
  update : TaskId → TaskDraft → ℕ → UndoStep  -- the version
  restore : TaskId → UndoStep
  checklist : TaskId → ℕ → Bool → UndoStep  -- the index, done
  exclude : TaskId → Bool → UndoStep

pub record ControlState : Type 0 where
  pub waiting : Option Waiting
  pub armed : Option Armed
  pub undo : List UndoStep
  pub since_ms : ℕ

abbrev pub wait_for : ControlState → Waiting → ℕ → ControlState
wait_for s w now_ms = record s { waiting = some w; since_ms = now_ms }

abbrev pub arm : ControlState → Armed → ℕ → ControlState
arm s a now_ms = record s { armed = some a; since_ms = now_ms }

abbrev pub busy : ControlState → Bool
busy s = is_some s.waiting || is_some s.armed

-- `clear`, without the words for the toast.
abbrev pub clear_state : ControlState → ControlState
clear_state s = record s { waiting = none; armed = none }

abbrev pub take_waiting : ControlState → ControlState × Option Waiting
take_waiting s = (record s { waiting = none }, s.waiting)

abbrev pub used : ControlState → Armed → ℕ → ControlState
used s a now_ms = if a.sticky then record s { since_ms = now_ms } else record s { armed = none }

unfoldable pub use_armed : ControlState → ℕ → ControlState × Option Armed
use_armed s now_ms = elim s.armed [ none ↦ (s, none) | some a ↦ (used s a now_ms, some a) ]

abbrev pub stale : ControlState → ℕ → ℕ → Bool
stale s now_ms timeout_ms = busy s && ltb 0 timeout_ms && ltb timeout_ms (now_ms - s.since_ms)

-- The minutes of a unit in `values_minutes`.
abbrev pub unit_minutes : OffsetUnit → ℕ
unit_minutes minutes = 1
unit_minutes hours = 60
unit_minutes days = 60 * 24
unit_minutes weeks = 60 * 24 * 7
unit_minutes months = 60 * 24 * 30
unit_minutes years = 60 * 24 * 365

pub data ValueError : Type 0 where
  not_a_number : Text → ValueError
  wants_minutes : ValueError

-- One value. The product of u32s wraps in a release build; a debug build panics instead.
abbrev pub value_minutes : Value → Result (Option ℕ) ValueError
value_minutes clear = ok none
value_minutes (free_text t) = elim (parse_unsigned (2 ^ 32) (trim t)) [
  | none ↦ err (not_a_number t)
  | some n ↦ ok (some n)
]
value_minutes (plus n u) = ok (some (n * unit_minutes u % 2 ^ 32))
value_minutes _ = err wants_minutes

unfoldable pub minutes_loop : Option ℕ → List Value → Result (Option ℕ) ValueError
unfolding parse_unsigned trim
minutes_loop out [] = ok out
minutes_loop out (v ∷ vs) = elim (value_minutes v) [ ok o ↦ minutes_loop o vs | err e ↦ err e ]

unfoldable pub values_minutes : List Value → Result (Option ℕ) ValueError
unfolding minutes_loop
values_minutes values = minutes_loop none values

-- What stands before and after the first `Split`.
unfoldable pub cut_split : List Value → Option (List Value × List Value)
cut_split [] = none
cut_split (split_dates ∷ vs) = some ([], vs)
cut_split (v ∷ vs) = elim (cut_split vs) [ none ↦ none | some (a, b) ↦ some (v ∷ a, b) ]

abbrev pub unless_none : List Value → Option (List Value)
unless_none [] = none
unless_none (v ∷ vs) = some (v ∷ vs)

unfoldable pub split_values : List Value → Option (List Value) × Option (List Value)
unfolding cut_split
split_values values = elim (cut_split values) [
  | none ↦ (some values, some values)
  | some (a, b) ↦ (unless_none a, unless_none b)
]
