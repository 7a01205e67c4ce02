-- ===== src/Permission/Tests.antt =====
-- An admin outside a private board, and a member's own task.
use taskologic.Prelude.{◌≡◌, ◌↔◌, true, false}
use taskologic.Prelude.Result.{ok, err}
use taskologic.Board.Tests.{test_board}
use taskologic.Lifecycle.Tests.{test_task}
use taskologic.Permission.{
  Actor, delete_board, view, move, board_not_visible, can_view, check_board, check_task,
  check_template_manage, check_program_manage, check_run_cancel,
}
use taskologic.Permission.Matrix.{MayBoard, check_board_iff, board_not_visible_iff}

abbrev admin : Actor
admin = record { uid = 7; is_admin = true }

abbrev member : Actor
member = record { uid = 1001; is_admin = false }

check_board_iff_example :
    (check_board delete_board admin test_board ≡ ok tt) ↔ MayBoard delete_board admin test_board
check_board_iff_example = check_board_iff delete_board admin test_board

board_not_visible_iff_example :
    ((check_board view admin test_board ≡ err board_not_visible)
      ↔ ((can_view admin test_board ≡ false) × (admin.is_admin ≡ false)))
    × ((check_task move admin test_board test_task ≡ err board_not_visible)
        ↔ ((can_view admin test_board ≡ false) × (admin.is_admin ≡ false)))
    × ((check_template_manage admin test_board 1001 ≡ err board_not_visible)
        ↔ ((can_view admin test_board ≡ false) × (admin.is_admin ≡ false)))
    × ((check_program_manage admin test_board 1001 ≡ err board_not_visible)
        ↔ ((can_view admin test_board ≡ false) × (admin.is_admin ≡ false)))
    × ((check_run_cancel admin test_board 1001 ≡ err board_not_visible)
        ↔ ((can_view admin test_board ≡ false) × (admin.is_admin ≡ false)))
board_not_visible_iff_example = board_not_visible_iff admin test_board test_task view move 1001
