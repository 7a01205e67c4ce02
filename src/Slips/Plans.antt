-- ===== src/Slips/Plans.antt =====
-- print.rs: the remaining jobs, and when a task prints and for whom.
use taskologic.Prelude.{
  ℕ, suc, Option, none, some, Bool, true, false, not, ◌&&◌, ◌||◌, List, [], ◌∷◌, ◌++◌,
}
use taskologic.Prelude.Tests.{◌==◌, leb, if◌then◌else◌}
use taskologic.Prelude.Lists.{keep}
use taskologic.Prelude.Text.{text}
use taskologic.Ids.{Uid}
use taskologic.Time.{DateTime, TimeDelta, delta}
use taskologic.Board.{Board, is_member, is_some}
use taskologic.Print.{
  PrintWhen, on_create, on_start, before_due, Recipients, assignees, creator, users, PrintRule,
}
use taskologic.Barcode.{start_pause, finish_children}
use taskologic.Task.{Task, is_assignee}
use taskologic.Slips.{
  Barcode, PrintJobKind, task_job, reminder_job, sheet_job, PrintJob, SheetEntry, User, labelled,
  barcode, in_order, barcodes_for, described,
}

unfoldable pub build_reminder_job : Task → Board → User → DateTime → Option PrintJob
unfolding barcodes_for
build_reminder_job task board user now = elim (barcodes_for user task) [
  | none ↦ none
  | some barcodes ↦ some (record {
    kind = reminder_job;
    task_id = task.id;
    short_id = task.short_id;
    board_name = board.name;
    title = task.title;
    description = described task.description;
    start_at = task.start_at;
    due_at = task.due_at;
    dependencies = none;
    created_by = none;
    assignees = none;
    checklist = task.checklist;
    barcodes = barcodes;
    sheet = [];
    codes = [];
    timezone = user.timezone;
    created_at = now;
  })
]

abbrev pub sheet_entry : Task → Option Barcode → Option SheetEntry
sheet_entry t none = none
sheet_entry t (some code) = some (record { short_id = t.short_id; title = t.title; barcode = code })

unfoldable pub sheet_entries : User → List Task → Option (List SheetEntry)
unfolding barcode
sheet_entries user [] = some []
sheet_entries user (t ∷ group) =
    in_order
      (sheet_entry t (labelled (text "scan to start: " ++ t.title) (barcode user t start_pause)))
      (sheet_entries user group)

abbrev pub sheet_of :
    Task → Board → User → DateTime → Option Barcode → Option (List SheetEntry) → Option PrintJob
sheet_of root board user now none entries = none
sheet_of root board user now (some stop) none = none
sheet_of root board user now (some stop) (some entries) = some (record {
  kind = sheet_job;
  task_id = root.id;
  short_id = root.short_id;
  board_name = board.name;
  title = root.title;
  description = none;
  start_at = none;
  due_at = none;
  dependencies = none;
  created_by = none;
  assignees = none;
  checklist = [];
  barcodes = stop ∷ [];
  sheet = entries;
  codes = [];
  timezone = user.timezone;
  created_at = now;
})

unfoldable pub build_sheet_job : Task → List Task → Board → User → DateTime → Option PrintJob
unfolding sheet_entries barcode
build_sheet_job root group board user now =
    sheet_of root board user now
      (labelled (text "scan to finish what is running") (barcode user root finish_children))
      (sheet_entries user group)

-- `PrintPrefs` of prefs.rs, as far as it is read here.
pub data PrintMode : Type 0 where
  on_add on_start_mode manual : PrintMode

pub record AutoprintFilter : Type 0 where
  pub assigned_to_me : Bool
  pub created_by_me : Bool
  pub unless_not_assigned_to_me : Bool

pub record PrintPrefs : Type 0 where
  pub mode : PrintMode
  pub autoprint_filter : Option AutoprintFilter
  pub reminder_start_minutes : Option ℕ
  pub reminder_due_minutes : Option ℕ

pub data AutoprintTrigger : Type 0 where
  added_to_board moved_to_started : AutoprintTrigger

abbrev pub mode_matches : PrintMode → AutoprintTrigger → Bool
mode_matches on_add added_to_board = true
mode_matches on_start_mode moved_to_started = true
mode_matches _ _ = false

abbrev pub is_creator : Task → Uid → Bool
is_creator t uid = t.created_by == uid

abbrev pub passes_filter : Option AutoprintFilter → Bool → Bool → Bool
passes_filter none assigned created = true
passes_filter (some f) assigned created =
    (f.assigned_to_me && assigned)
    || (f.created_by_me && created && (not f.unless_not_assigned_to_me || assigned))

unfoldable pub wants_autoprint : PrintPrefs → AutoprintTrigger → Task → Uid → Bool
wants_autoprint prefs trigger task uid =
    if not (mode_matches prefs.mode trigger)
    then false
    else passes_filter prefs.autoprint_filter (is_assignee task uid) (is_creator task uid)

pub data ReminderKind : Type 0 where
  start_reminder due_reminder : ReminderKind

-- `Option::or`
abbrev pub or_default {ℓ} : {A : Type ℓ} → Option A → Option A → Option A
or_default none d = d
or_default (some a) d = some a

pub record PlannedReminder : Type 0 where
  pub kind : ReminderKind
  pub at : DateTime
  pub job : PrintJobKind

pub record PlannedRule : Type 0 where
  pub index : ℕ
  pub at : DateTime
  pub anchor : Option DateTime
  pub sent_anchor : DateTime

module _ (try_minutes : ℕ → Option TimeDelta)
    (checked_add_signed checked_sub_signed : DateTime → TimeDelta → Option DateTime) where
  -- `TimeDelta::minutes` of a u32 does not panic.
  abbrev pub before : Option ℕ → Option DateTime → Option DateTime
  before minutes none = none
  before none (some anchor) = none
  before (some minutes) (some anchor) = elim (try_minutes minutes) [
    | none ↦ none
    | some d ↦ checked_sub_signed anchor d
  ]

  unfoldable pub reminder_at : Task → PrintPrefs → ReminderKind → Option DateTime
  reminder_at task prefs start_reminder =
      before (or_default task.reminder_start_minutes prefs.reminder_start_minutes) task.start_at
  reminder_at task prefs due_reminder =
      before (or_default task.reminder_due_minutes prefs.reminder_due_minutes) task.due_at

  abbrev pub owed : ReminderKind → PrintJobKind → Option DateTime → List PlannedReminder
  owed kind job none = []
  owed kind job (some at) = record { kind = kind; at = at; job = job } ∷ []

  unfoldable pub plan_reminders : Task → PrintPrefs → List PlannedReminder
  unfolding reminder_at
  plan_reminders task prefs =
      let both_dates = is_some task.start_at && is_some task.due_at in
      owed start_reminder reminder_job (reminder_at task prefs start_reminder)
      ++ owed due_reminder (if both_dates then task_job else reminder_job)
          (reminder_at task prefs due_reminder)

  -- The closure of `plan_rule_prints`.
  abbrev pub planned : ℕ → Option DateTime → Option DateTime → DateTime → Option PlannedRule
  planned index none anchor sent_anchor = none
  planned index (some at) anchor sent_anchor =
      some (record { index = index; at = at; anchor = anchor; sent_anchor = sent_anchor })

  abbrev pub lead_before : Option TimeDelta → DateTime → Option DateTime
  lead_before none due = none
  lead_before (some d) due = checked_sub_signed due d

  unfoldable pub plan_rule : Task → ℕ → PrintWhen → Option PlannedRule
  unfolding delta
  plan_rule task index on_create = none
  plan_rule task index on_start = planned index task.start_at none task.created_at
  plan_rule task index (before_due lead) = elim task.due_at [
    | none ↦ none
    | some due ↦
        planned index (lead_before (delta try_minutes checked_add_signed lead) due) (some due) due
  ]

  abbrev pub cons_some : Option PlannedRule → List PlannedRule → List PlannedRule
  cons_some none rest = rest
  cons_some (some p) rest = p ∷ rest

  unfoldable pub plan_rules : Task → ℕ → List PrintRule → List PlannedRule
  unfolding plan_rule
  plan_rules task index [] = []
  plan_rules task index (rule ∷ rules) =
      cons_some (plan_rule task index rule.when) (plan_rules task (suc index) rules)

  unfoldable pub plan_rule_prints : Task → List PlannedRule
  unfolding plan_rules
  plan_rule_prints task = plan_rules task 0 task.print_rules

-- `sort_unstable`
unfoldable pub insert : Uid → List Uid → List Uid
insert u [] = u ∷ []
insert u (v ∷ vs) = let rest = insert u vs in if leb u v then u ∷ v ∷ vs else v ∷ rest

unfoldable pub sort : List Uid → List Uid
unfolding insert
sort [] = []
sort (u ∷ us) = insert u (sort us)

-- `dedup`
unfoldable pub dedup : List Uid → List Uid
dedup [] = []
dedup (u ∷ []) = u ∷ []
dedup (u ∷ v ∷ us) = let rest = dedup (v ∷ us) in if u == v then rest else u ∷ rest

-- The people that a rule names.
unfoldable pub named : Recipients → Task → List Uid
named assignees task = elim task.assignees [ [] ↦ task.created_by ∷ [] | u ∷ us ↦ u ∷ us ]
named creator task = task.created_by ∷ []
named (users uids) task = uids

unfoldable pub recipients_of : PrintRule → Task → Board → List Uid
unfolding named sort dedup
recipients_of rule task board = dedup (sort (keep (λ u. is_member board u) (named rule.to task)))
