-- ===== src/Lifecycle.antt =====
-- A task's row over its life: crates/taskologicd/src/db/repo.rs applies what transition.rs decides, and
-- the handlers and the scheduler decide when. The board stays as it is. The position that SQLite
-- computes for a row is an argument.
pub mod Clock
pub mod Tests
use taskologic.Prelude.{ℕ, suc, ◌≡◌, ◌≢◌, Option, none, some, Bool, true, false, List, []}
use taskologic.Prelude.Tests.{◌==◌, if◌then◌else◌}
use taskologic.Prelude.Int.{ℤ}
use taskologic.Prelude.Result.{ok}
use taskologic.Ids.{ColumnId, TaskId}
use taskologic.Time.{DateTime}
use taskologic.Board.{Board, has_column}
use taskologic.Task.{Task, is_archived}
use taskologic.Transition.{MovePlan, plan_move, restore_column}

-- The position given by the client, the old one within a column, or the next one that is free.
abbrev pub position_after : Task → MovePlan → Option ℤ → ℤ → ℤ
position_after t plan (some p) next = p
position_after t plan none next = if plan.from == plan.to then t.position else next

unfoldable pub apply_move : Task → MovePlan → Option ℤ → ℤ → Task
apply_move t plan position next = record t {
  column_id = plan.to;
  position = position_after t plan position next;
  finished_at = plan.finished_at;
  version = suc t.version;
}

unfoldable pub archive_task : Task → DateTime → Task
archive_task t now = record t {
  archived_at = some now;
  archived_from_col = some t.column_id;
  version = suc t.version;
}

unfoldable pub soft_delete_task : Task → DateTime → Task
soft_delete_task t now = record t {
  archived_at = some now;
  deleted_at = some now;
  archived_from_col = some t.column_id;
  version = suc t.version;
}

unfoldable pub restore_task : Task → ColumnId → ℤ → Task
restore_task t to next = record t {
  archived_at = none;
  archived_from_col = none;
  deleted_at = none;
  column_id = to;
  position = next;
  finished_at = none;
  version = suc t.version;
}

-- One change of the row: a move that is planned, the archive clock, a delete and a restore, under the
-- conditions that the handlers and the query for due tasks check, how long a task waits left open.
pub data Step (b : Board) : Task → Task → Type 0 where
  move :
      (t : Task) (to : ColumnId) (open_deps : List TaskId) (override : Bool) (now : DateTime)
      (plan : MovePlan) (position : Option ℤ) (next : ℤ)
      → plan_move b t to open_deps override now ≡ ok plan
      → Step b t (apply_move t plan position next)
  archive :
      (t : Task) (now : DateTime)
      → is_archived t ≡ false
      → t.column_id ≡ b.finished_col
      → t.finished_at ≢ none
      → Step b t (archive_task t now)
  delete : (t : Task) (now : DateTime) → is_archived t ≡ false → Step b t (soft_delete_task t now)
  restore :
      (t : Task) (to : ColumnId) (next : ℤ)
      → is_archived t ≡ true
      → restore_column b t ≡ some to
      → Step b t (restore_task t to next)

pub data Steps (b : Board) : Task → Task → Type 0 where
  done : {t : Task} → Steps b t t
  and_then : {s t u : Task} → Step b s t → Steps b t u → Steps b s u
