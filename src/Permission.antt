-- ===== src/Permission.antt =====
-- crates/taskologic-core/src/permission.rs: who may do what. The sentences that `Display` writes for a
-- denial are left out; the debug assertion of `check_task` is not compiled into a release.
pub mod Matrix
pub mod Tests
use taskologic.Prelude.{◌≡◌, Bool, true, false, not, ◌&&◌, ◌||◌, List, [], ◌∷◌}
use taskologic.Prelude.Tests.{◌==◌, if◌then◌else◌}
use taskologic.Prelude.Result.{Check, ok, err, ◌>>◌}
use taskologic.Prelude.Text.{Text, text}
use taskologic.Ids.{Uid}
use taskologic.Board.{Board, is_member}
use taskologic.Task.{Task, is_assignee}

pub record Actor : Type 0 where
  pub uid : Uid
  pub is_admin : Bool

pub data BoardAction : Type 0 where
  view add_task manage_columns edit_settings manage_members delete_board : BoardAction
  toggle_lock toggle_private purge_tasks : BoardAction

pub data TaskAction : Type 0 where
  edit move delete restore purge : TaskAction

pub data Denial : Type 0 where
  board_not_visible admin_not_member : Denial
  owner_or_admin_only : Text → Denial
  locked_board not_task_editor not_task_deleter not_template_manager : Denial
  not_program_manager not_run_canceller : Denial

abbrev pub owner_or_admin : Bool → Text → Check Denial
owner_or_admin true what = ok tt
owner_or_admin false what = err (owner_or_admin_only what)

unfoldable pub can_view : Actor → Board → Bool
can_view actor b = is_member b actor.uid

abbrev pub is_delete_or_lock : BoardAction → Bool
is_delete_or_lock delete_board = true
is_delete_or_lock toggle_lock = true
is_delete_or_lock _ = false

abbrev pub privileged : Actor → Board → Bool
privileged actor b = actor.is_admin || b.owner_uid == actor.uid

-- The `match` on the action.
abbrev pub board_rule : BoardAction → Bool → Bool → Check Denial
board_rule view p locked = ok tt
board_rule add_task p locked = ok tt
board_rule manage_columns p locked = owner_or_admin p (text "add, edit or remove columns")
board_rule edit_settings p locked = owner_or_admin p (text "edit board settings")
board_rule manage_members p locked = owner_or_admin p (text "manage members")
board_rule toggle_lock p locked = owner_or_admin p (text "lock or unlock the board")
board_rule toggle_private p locked = owner_or_admin p (text "change whether the board is private")
board_rule purge_tasks p locked = owner_or_admin p (text "permanently delete archived tasks")
board_rule delete_board p locked =
    owner_or_admin p (text "delete the board") >> (if locked then err locked_board else ok tt)

unfoldable pub check_board : BoardAction → Actor → Board → Check Denial
check_board action actor b =
    if not (is_member b actor.uid) && not actor.is_admin
    then err board_not_visible
    else if not (is_member b actor.uid) && not (is_delete_or_lock action)
    then err admin_not_member
    else board_rule action (privileged actor b) b.is_locked

-- The refusal of somebody who is not a member.
abbrev pub outside : Actor → Denial
outside actor = if actor.is_admin then admin_not_member else board_not_visible

abbrev pub task_rule : TaskAction → Bool → Bool → Bool → Check Denial
task_rule move p creator assignee = ok tt
task_rule restore p creator assignee = ok tt
task_rule edit p creator assignee = if p || creator || assignee then ok tt else err not_task_editor
task_rule delete p creator assignee = if p || creator then ok tt else err not_task_deleter
task_rule purge p creator assignee = owner_or_admin p (text "permanently delete tasks")

unfoldable pub check_task : TaskAction → Actor → Board → Task → Check Denial
check_task action actor b t =
    if not (is_member b actor.uid)
    then err (outside actor)
    else task_rule action (privileged actor b) (t.created_by == actor.uid) (is_assignee t actor.uid)

unfoldable pub check_template_manage : Actor → Board → Uid → Check Denial
check_template_manage actor b owner_uid =
    if not (is_member b actor.uid)
    then err (outside actor)
    else if actor.is_admin || b.owner_uid == actor.uid || owner_uid == actor.uid
    then ok tt
    else err not_template_manager

-- The refusal of the template rule, said of something else.
abbrev pub instead : Denial → Denial → Denial
instead d not_template_manager = d
instead d e = e

abbrev pub refuse_as : Denial → Check Denial → Check Denial
refuse_as d (ok u) = ok u
refuse_as d (err e) = err (instead d e)

unfoldable pub check_program_manage : Actor → Board → Uid → Check Denial
unfolding check_template_manage
check_program_manage actor b owner_uid =
    refuse_as not_program_manager (check_template_manage actor b owner_uid)

unfoldable pub check_run_cancel : Actor → Board → Uid → Check Denial
unfolding check_template_manage
check_run_cancel actor b started_by =
    refuse_as not_run_canceller (check_template_manage actor b started_by)
