-- ===== src/Transition.antt =====
-- crates/taskologic-core/src/transition.rs: what moving a task means, what a scan does, and when the
-- archive's clocks fire. Decisions only: the daemon applies them.
-- `TimeDelta::seconds` and `checked_add_signed` are chrono's, and parameters of what dates.
pub mod Moves
pub mod Scans
use taskologic.Prelude.{ℕ, Option, none, some, Bool, true, false, not, ◌&&◌, ◌||◌, List, [], ◌∷◌}
use taskologic.Prelude.Tests.{◌==◌, if◌then◌else◌}
use taskologic.Prelude.Int.{ℤ}
use taskologic.Prelude.Result.{Result, ok, err}
use taskologic.Ids.{ColumnId, TaskId}
use taskologic.Time.{DateTime, TimeDelta}
use taskologic.Barcode.{
  ScanAction, start_pause, finish, yes_answer, no_answer, choice, finish_children,
}
use taskologic.Board.{Board, Column, has_column, first_column, is_empty}
use taskologic.Task.{Task, is_archived}

pub record MovePlan : Type 0 where
  pub from : ColumnId
  pub to : ColumnId
  pub finished_at : Option DateTime
  pub overrode_deps : List TaskId

pub data MoveError : Type 0 where
  unknown_column : ColumnId → MoveError
  task_archived : MoveError
  blocked_by_dependencies : List TaskId → MoveError

unfoldable pub plan_move :
    Board → Task → ColumnId → List TaskId → Bool → DateTime → Result MovePlan MoveError
unfolding has_column
plan_move b t to open_deps override_deps now =
    let from = t.column_id in
    let entering_finished = to == b.finished_col && not (from == b.finished_col) in
    let leaving_finished = from == b.finished_col && not (to == b.finished_col) in
    if is_archived t
    then err task_archived
    else if not (has_column b to)
    then err (unknown_column to)
    else if entering_finished && not (is_empty open_deps) && not override_deps
    then err (blocked_by_dependencies open_deps)
    else ok (record {
      from = from;
      to = to;
      finished_at =
          if entering_finished then some now else if leaving_finished then none else t.finished_at;
      overrode_deps = if entering_finished && not (is_empty open_deps) then open_deps else [];
    })

pub data ScanRefusal : Type 0 where
  already_finished archived : ScanRefusal

abbrev pub target : ScanAction → Board → Task → ColumnId
target start_pause b t = if t.column_id == b.started_col then b.paused_col else b.started_col
target _ b t = b.finished_col

unfoldable pub scan_target : ScanAction → Board → Task → Result ColumnId ScanRefusal
scan_target action b t =
    if is_archived t
    then err archived
    else if t.column_id == b.finished_col
    then err already_finished
    else ok (target action b t)

module _ (seconds : ℤ → TimeDelta)
    (checked_add_signed : DateTime → TimeDelta → Option DateTime) where
  abbrev pub later : Option DateTime → ℤ → Option DateTime
  later none secs = none
  later (some at) secs = checked_add_signed at (seconds secs)

  unfoldable pub archive_due_at : Board → Task → Option DateTime
  archive_due_at b t =
      if is_archived t || not (t.column_id == b.finished_col)
      then none
      else later t.finished_at b.archive_after_secs

  unfoldable pub purge_due_at : Board → Task → Option DateTime
  purge_due_at b t = later t.deleted_at b.purge_deleted_after_secs

abbrev pub leftmost_id : Option Column → Option ColumnId
leftmost_id none = none
leftmost_id (some c) = some c.id

unfoldable pub restore_column : Board → Task → Option ColumnId
unfolding has_column
restore_column b t = elim t.archived_from_col [
  | none ↦ leftmost_id (first_column b)
  | some c ↦ if has_column b c then some c else leftmost_id (first_column b)
]
