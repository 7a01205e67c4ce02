-- ===== src/Lifecycle/Tests.antt =====
-- A task on the board of four columns: moved, scanned, archived, restored and copied.
use taskologic.Prelude.{
  ℕ, ◌*◌, ◌≤◌, ◌≡◌, ◌≢◌, ◌↔◌, ◌⊎◌, refl, Option, none, some, true, false, List, [], ◌∷◌,
}
use taskologic.Prelude.Tests.{if◌then◌else◌, ◌==◌}
use taskologic.Prelude.Int.{ℤ, pos, ◌+ℤ◌}
use taskologic.Prelude.Result.{ok, err}
use taskologic.Prelude.Text.{text, trim, is_whitespace}
use taskologic.Time.{DateTime, TimeDelta, days_unit}
use taskologic.Barcode.{finish}
use taskologic.Board.{has_column}
use taskologic.Board.Tests.{test_board, test_board-accepted}
use taskologic.Task.{Task, is_archived, draft, validate_draft, validate_print_rules}
use taskologic.Repeat.{day_of_month}
use taskologic.Transition.{
  MovePlan, blocked_by_dependencies, plan_move, scan_target, archive_due_at, restore_column,
}
use taskologic.Transition.Moves.{Enters, blocked_iff, accepted_iff}
use taskologic.Transition.Scans.{
  plan_move-scan_target, archive_due_at-plan_move, restore_column-has_column,
}
use taskologic.Lifecycle.{
  apply_move, archive_task, restore_task, move, archive, restore, Steps, done, and_then,
}
use taskologic.Lifecycle.Clock.{IsConsistent, Steps-IsConsistent, archive_due_at-restore_task}
use taskologic.NextInstance.{next_instance}
use taskologic.NextInstance.Drafts.{validate_draft-next_instance}

abbrev pub test_task : Task
test_task = record {
  id = 7;
  short_id = record { bytes = text "000007" };
  board_id = 1;
  column_id = 2;
  position = pos 0;
  title = text "Sweep";
  description = [];
  start_at = none;
  due_at = none;
  reminder_start_minutes = none;
  reminder_due_minutes = some 60;
  created_by = 1001;
  created_at = pos 0;
  finished_at = none;
  version = 1;
  archived_at = none;
  archived_from_col = none;
  deleted_at = none;
  assignees = 1001 ∷ [];
  depends_on = 5 ∷ [];
  checklist = [];
  repeat = some (record {
    rule = day_of_month 31;
    at = 0;
    tz = 0;
    start_rule = none;
    due_rule = some (record { amount = 2; unit = days_unit });
  });
  template_id = none;
  exclude_from_stats = false;
  print_rules = [];
  program = none;
  auto_start = false;
}

-- Nanoseconds, with no bound on what chrono represents.
abbrev seconds : ℤ → TimeDelta
seconds (pos n) = pos (n * 1000000000)
seconds s = s

abbrev try_minutes : ℕ → Option TimeDelta
try_minutes m = some (pos (m * 60000000000))

abbrev checked_add_signed : DateTime → TimeDelta → Option DateTime
checked_add_signed at d = some (at +ℤ d)

abbrev blocking : List ℕ
blocking = 5 ∷ []

blocked_iff_example :
    (plan_move test_board test_task 4 blocking false (pos 9)
      ≡ err (blocked_by_dependencies blocking))
    ↔ ((is_archived test_task ≡ false)
        × (has_column test_board 4 ≡ true)
        × Enters test_board test_task 4
        × (blocking ≢ [])
        × (false ≡ false)
        × (blocking ≡ blocking))
blocked_iff_example = blocked_iff test_board test_task 4 blocking false (pos 9) blocking

accepted_iff_example :
    ((plan : MovePlan) × (plan_move test_board test_task 4 blocking true (pos 9) ≡ ok plan)) ↔ (
      (is_archived test_task ≡ false)
      × (has_column test_board 4 ≡ true)
      × ((Enters test_board test_task 4 → ⊥) ⊎ ((blocking ≡ []) ⊎ (true ≡ true))))
accepted_iff_example = accepted_iff test_board test_task 4 blocking true (pos 9)

scanned : scan_target finish test_board test_task ≡ ok 4
unfolding scan_target
scanned = refl

plan_move-scan_target_example :
    ((plan : MovePlan) × (plan_move test_board test_task 4 blocking false (pos 9) ≡ ok plan))
    ⊎ ((plan_move test_board test_task 4 blocking false (pos 9)
          ≡ err (blocked_by_dependencies blocking))
        × (blocking ≢ [])
        × (false ≡ false)
        × (4 ≡ test_board.finished_col))
plan_move-scan_target_example =
    plan_move-scan_target finish test_board test_task 4 blocking false (pos 9) test_board-accepted
      scanned

abbrev test_plan : MovePlan
test_plan = record { from = 2; to = 4; finished_at = some (pos 9); overrode_deps = 5 ∷ [] }

planned : plan_move test_board test_task 4 blocking true (pos 9) ≡ ok test_plan
unfolding plan_move
planned = refl

archive_due_at-plan_move_example :
    archive_due_at seconds checked_add_signed test_board
      (apply_move test_task test_plan none (pos 10))
    ≡ (if 4 == 4
        then if 2 == 4
          then archive_due_at seconds checked_add_signed test_board test_task
          else checked_add_signed (pos 9) (seconds (pos 604800))
        else none)
archive_due_at-plan_move_example =
    archive_due_at-plan_move seconds checked_add_signed test_board test_task 4 blocking true (pos 9)
      test_plan none (pos 10) planned

-- The task finished and archived.
abbrev archived_task : Task
archived_task = record test_task {
  column_id = 4;
  position = pos 10;
  finished_at = some (pos 9);
  version = 3;
  archived_at = some (pos 20);
  archived_from_col = some 4;
}

goes_back : restore_column test_board archived_task ≡ some 4
unfolding restore_column
goes_back = refl

restore_column-has_column_example : has_column test_board 4 ≡ true
restore_column-has_column_example = restore_column-has_column test_board archived_task 4 goes_back

test_task-IsConsistent : IsConsistent test_board test_task
unfolding has_column
test_task-IsConsistent = record {
  placed = refl;
  unfinished = λ l n. refl;
  remembered = λ l. absurd (cc);
  deleted = λ n. absurd (n refl);
}

life : Steps test_board test_task (restore_task archived_task 4 (pos 30))
unfolding apply_move archive_task
life = and_then (move test_task 4 blocking true (pos 9) test_plan none (pos 10) planned) (
    and_then (archive (apply_move test_task test_plan none (pos 10)) (pos 20) refl refl (λ e. cc))
      (and_then (restore archived_task 4 (pos 30) refl goes_back) done))

Steps-IsConsistent_example :
    IsConsistent test_board (restore_task archived_task 4 (pos 30))
    × (test_task.version ≤ (restore_task archived_task 4 (pos 30)).version)
Steps-IsConsistent_example =
    Steps-IsConsistent test_board test_task (restore_task archived_task 4 (pos 30)) life
      test_task-IsConsistent

abbrev stay : MovePlan
stay = record { from = 4; to = 4; finished_at = none; overrode_deps = [] }

stayed : plan_move test_board (restore_task archived_task 4 (pos 30)) 4 [] false (pos 40) ≡ ok stay
unfolding plan_move restore_task
stayed = refl

on_board : has_column test_board 4 ≡ true
unfolding has_column
on_board = refl

archive_due_at-restore_task_example :
    (restore_column test_board archived_task ≡ some 4)
    × (archive_due_at seconds checked_add_signed test_board (restore_task archived_task 4 (pos 30))
        ≡ none)
    × (stay.finished_at ≡ none)
archive_due_at-restore_task_example =
    archive_due_at-restore_task seconds checked_add_signed test_board archived_task (pos 30) []
      false (pos 40) stay refl on_board stayed

test_task-valid : validate_draft (draft test_task) test_board ≡ ok tt
unfolding validate_draft draft trim is_whitespace
test_task-valid = refl

no_rules : validate_print_rules test_task.print_rules test_board false ≡ ok tt
unfolding validate_print_rules
no_rules = refl

validate_draft-next_instance_example :
    validate_draft
      (next_instance try_minutes checked_add_signed test_task test_board (pos 50))
      test_board
    ≡ ok tt
validate_draft-next_instance_example =
    validate_draft-next_instance try_minutes checked_add_signed test_task test_board test_board
      (pos 50) test_task-valid no_rules
