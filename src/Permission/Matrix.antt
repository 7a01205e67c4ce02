-- ===== src/Permission/Matrix.antt =====
-- The permission matrix, stated apart from the code that decides it.
use taskologic.Prelude.{◌≡◌, ◌≢◌, ◌↔◌, ◌⊎◌, refl, Bool, true, false, arith}
use taskologic.Prelude.Tests.{◌==◌}
use taskologic.Prelude.Result.{ok, err, is_ok}
use taskologic.Ids.{Uid}
use taskologic.Board.{Board, is_member}
use taskologic.Task.{Task, is_assignee}
use taskologic.Permission.{
  Actor, BoardAction, view, add_task, manage_columns, edit_settings, manage_members, delete_board,
  toggle_lock, toggle_private, purge_tasks, TaskAction, edit, move, delete, restore, purge,
  board_not_visible, privileged, board_rule, task_rule, can_view, check_board, check_task,
  check_template_manage, check_program_manage, check_run_cancel,
}

-- What any member may do.
abbrev pub is_open_to_members : BoardAction → Bool
is_open_to_members view = true
is_open_to_members add_task = true
is_open_to_members _ = false

-- What an admin who is not a member may do.
abbrev pub is_open_to_outside_admins : BoardAction → Bool
is_open_to_outside_admins view = false
is_open_to_outside_admins add_task = false
is_open_to_outside_admins manage_columns = false
is_open_to_outside_admins edit_settings = false
is_open_to_outside_admins manage_members = false
is_open_to_outside_admins delete_board = true
is_open_to_outside_admins toggle_lock = true
is_open_to_outside_admins toggle_private = false
is_open_to_outside_admins purge_tasks = false

-- Privileged: an admin, or the owner.
abbrev pub IsPrivileged : Actor → Board → Type 0
IsPrivileged actor b = (actor.is_admin ≡ true) ⊎ (b.owner_uid ≡ actor.uid)

pub record MayBoard (action : BoardAction) (actor : Actor) (b : Board) : Type 0 where
  pub inside :
      (is_member b actor.uid ≡ true)
      ⊎ ((actor.is_admin ≡ true) × (is_open_to_outside_admins action ≡ true))
  pub entitled : (is_open_to_members action ≡ true) ⊎ IsPrivileged actor b
  pub unlocked : action ≡ delete_board → b.is_locked ≡ false

-- `check_board` passes exactly what the matrix allows: the actor is a member, or is an admin and asks to
-- delete or to lock the board; the actor is an admin or the owner, or asks to view or to add a task,
-- which any member may; and a board that is to be deleted is not locked.
pub check_board_iff :
    (action : BoardAction) (actor : Actor) (b : Board)
    → (check_board action actor b ≡ ok tt) ↔ MayBoard action actor b
unfolding check_board
check_board_iff view actor b = (
  λ h. record { inside = ground arith; entitled = ground arith; unlocked = λ e. absurd (cc) },
  λ m. let i = m.inside in let n = m.entitled in ground arith,
)
check_board_iff add_task actor b = (
  λ h. record { inside = ground arith; entitled = ground arith; unlocked = λ e. absurd (cc) },
  λ m. let i = m.inside in let n = m.entitled in ground arith,
)
check_board_iff manage_columns actor b = (
  λ h. record { inside = ground arith; entitled = ground arith; unlocked = λ e. absurd (cc) },
  λ m. let i = m.inside in let n = m.entitled in ground arith,
)
check_board_iff edit_settings actor b = (
  λ h. record { inside = ground arith; entitled = ground arith; unlocked = λ e. absurd (cc) },
  λ m. let i = m.inside in let n = m.entitled in ground arith,
)
check_board_iff manage_members actor b = (
  λ h. record { inside = ground arith; entitled = ground arith; unlocked = λ e. absurd (cc) },
  λ m. let i = m.inside in let n = m.entitled in ground arith,
)
check_board_iff toggle_lock actor b = (
  λ h. record { inside = ground arith; entitled = ground arith; unlocked = λ e. absurd (cc) },
  λ m. let i = m.inside in let n = m.entitled in ground arith,
)
check_board_iff toggle_private actor b = (
  λ h. record { inside = ground arith; entitled = ground arith; unlocked = λ e. absurd (cc) },
  λ m. let i = m.inside in let n = m.entitled in ground arith,
)
check_board_iff purge_tasks actor b = (
  λ h. record { inside = ground arith; entitled = ground arith; unlocked = λ e. absurd (cc) },
  λ m. let i = m.inside in let n = m.entitled in ground arith,
)
check_board_iff delete_board actor b = (
  λ h. record { inside = ground arith; entitled = ground arith; unlocked = λ e. ground arith },
  λ m. let i = m.inside in let n = m.entitled in let u = m.unlocked refl in ground arith,
)

board_rule-visible :
    (action : BoardAction) (p locked : Bool) → board_rule action p locked ≢ err board_not_visible
board_rule-visible view p locked h = ground arith
board_rule-visible add_task p locked h = ground arith
board_rule-visible manage_columns p locked h = ground arith
board_rule-visible edit_settings p locked h = ground arith
board_rule-visible manage_members p locked h = ground arith
board_rule-visible toggle_lock p locked h = ground arith
board_rule-visible toggle_private p locked h = ground arith
board_rule-visible purge_tasks p locked h = ground arith
board_rule-visible delete_board p locked h = ground arith

task_rule-visible :
    (action : TaskAction) (p creator assignee : Bool)
    → task_rule action p creator assignee ≢ err board_not_visible
task_rule-visible edit p creator assignee h = ground arith
task_rule-visible move p creator assignee h = ground arith
task_rule-visible delete p creator assignee h = ground arith
task_rule-visible restore p creator assignee h = ground arith
task_rule-visible purge p creator assignee h = ground arith

-- Each of the five checks denies a board as not visible to exactly those who are neither members nor
-- admins.
pub board_not_visible_iff :
    (actor : Actor) (b : Board) (t : Task) (action : BoardAction) (task_action : TaskAction)
    (maker : Uid)
    → ((check_board action actor b ≡ err board_not_visible)
        ↔ ((can_view actor b ≡ false) × (actor.is_admin ≡ false)))
      × ((check_task task_action actor b t ≡ err board_not_visible)
          ↔ ((can_view actor b ≡ false) × (actor.is_admin ≡ false)))
      × ((check_template_manage actor b maker ≡ err board_not_visible)
          ↔ ((can_view actor b ≡ false) × (actor.is_admin ≡ false)))
      × ((check_program_manage actor b maker ≡ err board_not_visible)
          ↔ ((can_view actor b ≡ false) × (actor.is_admin ≡ false)))
      × ((check_run_cancel actor b maker ≡ err board_not_visible)
          ↔ ((can_view actor b ≡ false) × (actor.is_admin ≡ false)))
unfolding can_view check_board check_task check_template_manage check_program_manage
    check_run_cancel
board_not_visible_iff actor b t action task_action maker = (
  (
    λ h. ground (arith, board_rule-visible action (privileged actor b) b.is_locked),
    λ h. ground arith,
  ),
  (
    λ h. ground (
      arith,
      task_rule-visible task_action (privileged actor b) (t.created_by == actor.uid)
          (is_assignee t actor.uid),
    ),
    λ h. ground arith,
  ),
  (λ h. ground arith, λ h. ground arith),
  (λ h. ground arith, λ h. ground arith),
  (λ h. ground arith, λ h. ground arith),
)

-- Who may purge a task may delete it, who may delete it may edit it, and who may edit it may move and
-- restore it.
pub check_task-Chain :
    (actor : Actor) (b : Board) (t : Task)
    → (check_task purge actor b t ≡ ok tt → check_task delete actor b t ≡ ok tt)
      × (check_task delete actor b t ≡ ok tt → check_task edit actor b t ≡ ok tt)
      × (check_task edit actor b t ≡ ok tt → check_task move actor b t ≡ ok tt)
      × (check_task move actor b t ≡ check_task restore actor b t)
unfolding check_task
check_task-Chain actor b t = (λ h. ground arith, λ h. ground arith, λ h. ground arith, refl)

-- Templates, programs and runs are managed under the rule for deleting a task that the same user made.
pub is_ok-manage :
    (actor : Actor) (b : Board) (t : Task)
    → (is_ok (check_template_manage actor b t.created_by) ≡ is_ok (check_task delete actor b t))
      × (is_ok (check_program_manage actor b t.created_by) ≡ is_ok (check_task delete actor b t))
      × (is_ok (check_run_cancel actor b t.created_by) ≡ is_ok (check_task delete actor b t))
unfolding check_task check_template_manage check_program_manage check_run_cancel
is_ok-manage actor b t = (ground arith, ground arith, ground arith)
