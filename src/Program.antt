-- ===== src/Program.antt =====
-- crates/taskologic-core/src/program.rs: programs, their runs, and what an event means for a run.
-- What the code calls of chrono and of `str` is a record of operations.
pub mod Effect
pub mod React
pub mod Creations
pub mod Root
pub mod Tests
use taskologic.Prelude.{
  ℕ, ◌≡◌, Option, none, some, Bool, true, false, not, ◌&&◌, ◌||◌, List, [], ◌∷◌, map,
}
use taskologic.Prelude.Tests.{◌==◌, if◌then◌else◌}
use taskologic.Prelude.Int.{ℤ, pos, ◌+ℤ◌}
use taskologic.Prelude.Text.{Text, text, text_eq}
use taskologic.Ids.{Uid, BoardId, ColumnId, TaskId, ProgramId, RunId}
use taskologic.Schedule.Local.{LocalResult, NaiveDateTime}
use taskologic.Time.{DateTime, NaiveDate, NaiveTime, TimeDelta, Tz, Offset}
use taskologic.Board.{is_some}
use taskologic.Print.{PrintRule}
use taskologic.Task.{ChecklistItem}
use taskologic.Question.{Question}

pub record Outside : Type 0 where
  pub to_lowercase : Text → Text
  pub try_minutes : ℕ → Option TimeDelta
  pub checked_add_signed : DateTime → TimeDelta → Option DateTime
  pub local_date : DateTime → Tz → NaiveDate
  pub checked_add_days : NaiveDate → ℕ → Option NaiveDate
  pub and_time : NaiveDate → NaiveTime → NaiveDateTime
  pub from_local_datetime : Tz → NaiveDateTime → LocalResult
  pub from_utc_datetime : NaiveDateTime → DateTime

abbrev pub root_key : Text
root_key = text "root"

pub data Assign : Type 0 where
  starter : Assign
  assign_users : List Uid → Assign
  nobody : Assign

pub data Trigger : Type 0 where
  with_root root_started : Trigger
  finished : Text → Trigger
  answered : Text → Text → Trigger

pub data StartRule : Type 0 where
  manual when_root_starts : StartRule
  after_trigger : Offset → StartRule
  days_later_at : ℕ → NaiveTime → StartRule

pub record Step : Type 0 where
  pub key : Text
  pub title : Text
  pub description : Text
  pub assign : Assign
  pub checklist : List ChecklistItem
  pub created : List Trigger
  pub once : Bool
  pub also_after : List Text
  pub start : StartRule
  pub auto_start : Bool
  pub time_limit : Option Offset
  pub counts_toward_root : Bool
  pub question : Option Question
  pub print : List PrintRule
  pub fan_out : Option (List Text)

abbrev pub is_root : Step → Bool
is_root s = text_eq s.key root_key

-- The entries a step makes a task for.
abbrev pub entries : Option (List Text) → List (Option Text)
entries none = none ∷ []
entries (some []) = none ∷ []
entries (some (p ∷ ps)) = map (λ e. some e) (p ∷ ps)

abbrev pub params : Step → List (Option Text)
params s = entries s.fan_out

pub record Run : Type 0 where
  pub id : RunId
  pub program_id : Option ProgramId
  pub board_id : BoardId
  pub root_task : TaskId
  pub started_by : Uid
  pub column_id : ColumnId
  pub steps : List Step
  pub created_at : DateTime
  pub started_at : Option DateTime
  pub finished_at : Option DateTime
  pub cancelled_at : Option DateTime

abbrev pub is_active : Run → Bool
is_active r = not (is_some r.finished_at) && not (is_some r.cancelled_at)

-- One task a run has made, as much of it as `react` needs.
pub record StepTask : Type 0 where
  pub step : Text
  pub iteration : ℕ
  pub param : Option Text
  pub task_id : TaskId
  pub done : Bool
  pub skipped : Bool
  pub counts : Bool
  pub pending_answer : Bool

pub data RunEvent : Type 0 where
  run_created run_root_started : RunEvent
  task_finished : TaskId → Option Text → RunEvent
  task_answered : TaskId → Text → RunEvent
  task_deleted : TaskId → RunEvent

pub record Creation : Type 0 where
  pub step : ℕ
  pub iteration : ℕ
  pub param : Option Text
  pub start_at : Option DateTime
  pub depends_on : List TaskId
  pub counts : Bool

pub record Plan : Type 0 where
  pub create : List Creation
  pub set_start : List TaskId
  pub finish_root : Bool
  pub end_run : Bool
  pub ask : Option TaskId
  pub answered : Option (TaskId × Text)
