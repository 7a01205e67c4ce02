-- ===== src/Board/Tests.antt =====
-- A board of four columns, as the tests of board.rs have it.
use taskologic.Prelude.{ℕ, ◌+◌, ◌≡◌, ◌≢◌, ◌↔◌, ◌&&◌, refl, some, true, false, [], ◌∷◌, map}
use taskologic.Prelude.Tests.{leb, if◌then◌else◌}
use taskologic.Prelude.Int.{pos}
use taskologic.Prelude.Result.{ok}
use taskologic.Prelude.Text.{Text, text}
use taskologic.Board.{
  Board, Column, finished, ColumnRemoval, validate, validate_roles, all_roles, has_column,
  would_lose_access, plan_column_removal, remove_column,
}
use taskologic.Board.Wellformed.{IsWellformed, validate_iff}
use taskologic.Board.Removal.{remove_column-plan_column_removal, move_tasks_to-plan_column_removal}

abbrev pub lowercase : Text → Text
lowercase s = map (λ c. if leb b'A' c && leb c b'Z' then c + 32 else c) s

abbrev named_column : ℕ → Text → Column
named_column id name = record {
  id = id;
  board_id = 1;
  name = name;
  position = pos id;
  sort_by_due = false;
}

abbrev pub test_board : Board
test_board = record {
  id = 1;
  short_id = record { bytes = text "000000" };
  name = text "Test board";
  description = [];
  owner_uid = 1000;
  is_locked = false;
  is_private = true;
  archive_after_secs = pos 604800;
  purge_deleted_after_secs = pos 2592000;
  card_fields = record {
    start_date = false;
    due_date = true;
    assignees = true;
    dependencies = true;
    description = false;
    short_id = false;
    estimate = false;
  };
  started_col = 2;
  paused_col = 3;
  finished_col = 4;
  created_at = pos 0;
  columns =
      named_column 1 (text "Todo")
      ∷ named_column 2 (text "Doing")
      ∷ named_column 3 (text "Waiting")
      ∷ named_column 4 (text "Done")
      ∷ [];
  members = 1000 ∷ 1001 ∷ [];
}

abbrev test_removal : ColumnRemoval
test_removal = record { removed = 4; move_tasks_to = some 1; reassign_roles = (finished, 3) ∷ [] }

pub test_board-accepted : validate_roles test_board all_roles ≡ ok tt
unfolding validate_roles has_column
test_board-accepted = refl

test_removal-planned :
    plan_column_removal test_board 4 true (some 1) ((finished, 3) ∷ []) ≡ ok test_removal
unfolding plan_column_removal
test_removal-planned = refl

validate_iff_example : (validate lowercase test_board ≡ ok tt) ↔ IsWellformed lowercase test_board
validate_iff_example = validate_iff lowercase test_board

remove_column-plan_column_removal_example :
    (validate_roles (remove_column test_board test_removal) all_roles ≡ ok tt)
    × (has_column (remove_column test_board test_removal) 4 ≡ false)
remove_column-plan_column_removal_example =
    remove_column-plan_column_removal test_board 4 true (some 1) ((finished, 3) ∷ []) test_removal
      test_board-accepted test_removal-planned

move_tasks_to-plan_column_removal_example :
    (d : ℕ) × (test_removal.move_tasks_to ≡ some d)
    × (d ≢ 4)
    × (has_column (remove_column test_board test_removal) d ≡ true)
move_tasks_to-plan_column_removal_example =
    move_tasks_to-plan_column_removal test_board 4 (some 1) ((finished, 3) ∷ []) test_removal
      test_removal-planned

-- The people are named in order, once each.
would_lose_access_run :
    would_lose_access test_board (1003 ∷ 1001 ∷ 1002 ∷ 1003 ∷ []) ≡ 1002 ∷ 1003 ∷ []
unfolding would_lose_access
would_lose_access_run = refl
