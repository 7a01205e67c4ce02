-- ===== src/Task.antt =====
-- crates/taskologic-core/src/task.rs: tasks, what a client sends to create one, and what is checked of
-- it before the database is asked.
use taskologic.Prelude.{ℕ, ◌*◌, Option, none, some, Bool, false, not, ◌&&◌, ◌||◌, List, [], ◌∷◌}
use taskologic.Prelude.Tests.{ltb, ◌==◌, if◌then◌else◌}
use taskologic.Prelude.Lists.{length, find, contains}
use taskologic.Prelude.Int.{ℤ, ltb_ℤ}
use taskologic.Prelude.Result.{Check, ok, err, map_err, ◌>>◌}
use taskologic.Prelude.Text.{Text, trim}
use taskologic.Ids.{Uid, BoardId, ColumnId, TaskId, TemplateId}
use taskologic.Ids.ShortId.{ShortId}
use taskologic.Time.{DateTime, max_offset_amount}
use taskologic.Board.{Board, is_member, is_empty, is_some}
use taskologic.Print.{
  PrintRule, PrintWhen, before_due, Recipients, assignees, creator, users, is_sheet, is_on_create,
}
use taskologic.Repeat.{RepeatSpec, RepeatError, validate_spec}
use taskologic.Question.{StepRef}

abbrev pub max_title_chars : ℕ
max_title_chars = 200

-- `MAX_REMINDER_MINUTES` of prefs.rs: one year.
abbrev pub max_reminder_minutes : ℕ
max_reminder_minutes = 365 * 24 * 60

pub record ChecklistItem : Type 0 where
  pub text : Text
  pub done : Bool

pub record Task : Type 0 where
  pub id : TaskId
  pub short_id : ShortId
  pub board_id : BoardId
  pub column_id : ColumnId
  pub position : ℤ
  pub title : Text
  pub description : Text
  pub start_at : Option DateTime
  pub due_at : Option DateTime
  pub reminder_start_minutes : Option ℕ
  pub reminder_due_minutes : Option ℕ
  pub created_by : Uid
  pub created_at : DateTime
  pub finished_at : Option DateTime
  pub version : ℕ
  pub archived_at : Option DateTime
  pub archived_from_col : Option ColumnId
  pub deleted_at : Option DateTime
  pub assignees : List Uid
  pub depends_on : List TaskId
  pub checklist : List ChecklistItem
  pub repeat : Option RepeatSpec
  pub template_id : Option TemplateId
  pub exclude_from_stats : Bool
  pub print_rules : List PrintRule
  pub program : Option StepRef
  pub auto_start : Bool

abbrev pub is_archived : Task → Bool
is_archived t = is_some t.archived_at

abbrev pub is_assignee : Task → Uid → Bool
is_assignee t uid = contains t.assignees uid

abbrev pub is_done : Task → Board → Bool
is_done t b = is_archived t || t.column_id == b.finished_col

pub record TaskDraft : Type 0 where
  pub title : Text
  pub description : Text
  pub start_at : Option DateTime
  pub due_at : Option DateTime
  pub reminder_start_minutes : Option ℕ
  pub reminder_due_minutes : Option ℕ
  pub assignees : List Uid
  pub depends_on : List TaskId
  pub checklist : List ChecklistItem
  pub repeat : Option RepeatSpec
  pub print_rules : List PrintRule
  pub auto_start : Bool

pub data TaskError : Type 0 where
  empty_title title_too_long : TaskError
  assignee_not_member : Uid → TaskError
  reminder_too_early start_after_due : TaskError
  print_recipient_not_member : Uid → TaskError
  no_print_recipients print_lead_too_large sheet_needs_fan_out : TaskError
  repeat_error : RepeatError → TaskError

-- The draft that saves the task as it is.
unfoldable pub draft : Task → TaskDraft
draft t = record {
  title = t.title;
  description = t.description;
  start_at = t.start_at;
  due_at = t.due_at;
  reminder_start_minutes = t.reminder_start_minutes;
  reminder_due_minutes = t.reminder_due_minutes;
  assignees = t.assignees;
  depends_on = t.depends_on;
  checklist = t.checklist;
  repeat = t.repeat;
  print_rules = t.print_rules;
  auto_start = t.auto_start;
}

unfoldable pub validate_title : Text → Check TaskError
validate_title title =
    let t = trim title in
    if is_empty t
    then err empty_title
    else if ltb max_title_chars (length t)
    then err title_too_long
    else ok tt

-- The loop over the assignees.
unfoldable pub check_assignees : Board → List Uid → Check TaskError
check_assignees b [] = ok tt
check_assignees b (uid ∷ uids) =
    let rest = check_assignees b uids in
    if not (is_member b uid) then err (assignee_not_member uid) else rest

abbrev pub too_early : Option ℕ → Bool
too_early none = false
too_early (some m) = ltb max_reminder_minutes m

abbrev pub check_reminders : TaskDraft → Check TaskError
check_reminders d =
    if too_early d.reminder_due_minutes || too_early d.reminder_start_minutes
    then err reminder_too_early
    else ok tt

abbrev pub check_dates : Option DateTime → Option DateTime → Check TaskError
check_dates (some start) (some due) = if ltb_ℤ due start then err start_after_due else ok tt
check_dates _ _ = ok tt

abbrev pub check_repeat : Option RepeatSpec → Check TaskError
check_repeat none = ok tt
check_repeat (some r) = map_err repeat_error (validate_spec r)

abbrev pub lead_too_large : PrintWhen → Bool
lead_too_large (before_due lead) = ltb max_offset_amount lead.amount
lead_too_large _ = false

-- `if let Recipients::Users(uids) = &rule.to { ... }`
abbrev pub check_users : Board → List Uid → Check TaskError
check_users b uids =
    if is_empty uids then err no_print_recipients else elim (find (λ u. not (is_member b u)) uids) [
      | none ↦ ok tt
      | some u ↦ err (print_recipient_not_member u)
    ]

abbrev pub check_recipients : Board → Recipients → Check TaskError
check_recipients b assignees = ok tt
check_recipients b creator = ok tt
check_recipients b (users uids) = check_users b uids

-- One round of the loop over the rules.
unfoldable pub validate_print_rule : PrintRule → Board → Bool → Check TaskError
validate_print_rule rule b sheets =
    if is_sheet rule.slip && (not sheets || not (is_on_create rule.when))
    then err sheet_needs_fan_out
    else if lead_too_large rule.when
    then err print_lead_too_large
    else check_recipients b rule.to

unfoldable pub validate_print_rules : List PrintRule → Board → Bool → Check TaskError
unfolding validate_print_rule
validate_print_rules [] b sheets = ok tt
validate_print_rules (rule ∷ rules) b sheets =
    validate_print_rule rule b sheets >> validate_print_rules rules b sheets

unfoldable pub validate_draft : TaskDraft → Board → Check TaskError
unfolding validate_title check_assignees validate_print_rules
validate_draft d b =
    validate_title d.title
    >> (check_assignees b d.assignees
        >> (check_reminders d
            >> (check_dates d.start_at d.due_at
                >> (check_repeat d.repeat >> validate_print_rules d.print_rules b false))))
