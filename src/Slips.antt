-- ===== src/Slips.antt =====
-- crates/taskologic-core/src/print.rs: the slips that a task prints, for whom and when.
-- chrono's partial operations are parameters, and so are the names of users.
pub mod Plans
pub mod People
pub mod Codes
pub mod Tests
use taskologic.Prelude.{
  ℕ, suc, ◌+◌, Option, none, some, Bool, true, false, not, ◌&&◌, ◌||◌, List, [], ◌∷◌, ◌++◌, map,
}
use taskologic.Prelude.Tests.{◌==◌, leb, if◌then◌else◌}
use taskologic.Prelude.Lists.{keep}
use taskologic.Prelude.Text.{Text, text, trim}
use taskologic.Ids.{Uid, TaskId}
use taskologic.Ids.ShortId.{ShortId, from_index}
use taskologic.Time.{DateTime, TimeDelta, Tz, delta}
use taskologic.Board.{Board, is_member, is_empty, is_some}
use taskologic.Print.{
  Symbology, PrintWhen, on_create, on_start, before_due, SlipKind, task_slip, reminder_slip, sheet,
  Recipients, assignees, creator, users, PrintRule,
}
use taskologic.Barcode.{ScanAction, start_pause, finish, finish_children}
use taskologic.Barcode.Payload.{ScanPayload, encode}
use taskologic.Question.{Question, StepRef, answers, barcode_action}
use taskologic.Task.{Task, ChecklistItem, is_assignee}

pub record Barcode : Type 0 where
  pub action : ScanAction
  pub payload : Text
  pub symbology : Symbology
  pub label : Option Text
  pub narrow : Bool

pub data PrintJobKind : Type 0 where
  task_job reminder_job sheet_job codes_job : PrintJobKind

-- `SlipKind::job_kind`
abbrev pub job_kind : SlipKind → PrintJobKind
job_kind task_slip = task_job
job_kind reminder_slip = reminder_job
job_kind sheet = sheet_job

-- `PrintWhen::name`, `SlipKind::name` and `PrintRule::sent_kind`
abbrev pub when_name : PrintWhen → Text
when_name on_create = text "rule_create"
when_name on_start = text "rule_start"
when_name (before_due lead) = text "rule_due"

abbrev pub slip_name : SlipKind → Text
slip_name task_slip = text "task"
slip_name reminder_slip = text "reminder"
slip_name sheet = text "sheet"

abbrev pub sent_kind : PrintRule → Text
sent_kind rule = when_name rule.when ++ b'_' ∷ slip_name rule.slip

pub record DepLine : Type 0 where
  pub short_id : ShortId
  pub title : Text
  pub done : Bool

pub record SheetEntry : Type 0 where
  pub short_id : ShortId
  pub title : Text
  pub barcode : Barcode

pub record CodeLine : Type 0 where
  pub label : Text
  pub payload : Text
  pub symbology : Symbology
  pub narrow : Bool

-- `CodeLine::barcode`
abbrev pub line_barcode : CodeLine → Barcode
line_barcode l = record {
  action = start_pause;
  payload = l.payload;
  symbology = l.symbology;
  label = some l.label;
  narrow = l.narrow;
}

pub record PrintJob : Type 0 where
  pub kind : PrintJobKind
  pub task_id : TaskId
  pub short_id : ShortId
  pub board_name : Text
  pub title : Text
  pub description : Option Text
  pub start_at : Option DateTime
  pub due_at : Option DateTime
  pub dependencies : Option (List DepLine)
  pub created_by : Option Text
  pub assignees : Option (List Text)
  pub checklist : List ChecklistItem
  pub barcodes : List Barcode
  pub sheet : List SheetEntry
  pub codes : List CodeLine
  pub timezone : Tz
  pub created_at : DateTime

-- What is read of a user: the zone, and the format of the scanner's codes.
pub record User : Type 0 where
  pub timezone : Tz
  pub format : Symbology

-- `(!xs.is_empty()).then(...)`
abbrev pub unless_empty {ℓ} : {A : Type ℓ} → List A → Option (List A)
unless_empty [] = none
unless_empty (x ∷ xs) = some (x ∷ xs)

unfoldable pub build_codes_job : Text → List CodeLine → User → DateTime → PrintJob
build_codes_job heading codes user now = record {
  kind = codes_job;
  task_id = 0;
  short_id = from_index 0;
  board_name = heading;
  title = heading;
  description = none;
  start_at = none;
  due_at = none;
  dependencies = none;
  created_by = none;
  assignees = none;
  checklist = [];
  barcodes = [];
  sheet = [];
  codes = codes;
  timezone = user.timezone;
  created_at = now;
}

abbrev pub coded : User → ScanAction → Option Text → Option Barcode
coded user action none = none
coded user action (some payload) = some (record {
  action = action;
  payload = payload;
  symbology = user.format;
  label = none;
  narrow = false;
})

-- `barcode`; nothing where `encode` panics.
unfoldable pub barcode : User → Task → ScanAction → Option Barcode
unfolding encode
barcode user task action =
    coded user action (encode (record { action = action; short_id = task.short_id }))

abbrev pub labelled : Text → Option Barcode → Option Barcode
labelled label none = none
labelled label (some code) = some (record code { label = some label })

abbrev pub in_order {ℓ} : {A : Type ℓ} → Option A → Option (List A) → Option (List A)
in_order none rest = none
in_order (some a) none = none
in_order (some a) (some rest) = some (a ∷ rest)

-- The codes of the answers from the i-th on.
unfoldable pub answer_codes : User → Task → Question → ℕ → List Text → Option (List Barcode)
unfolding barcode
answer_codes user task q i [] = some []
answer_codes user task q i (answer ∷ rest) =
    in_order (labelled (text "scan to finish: " ++ answer) (barcode user task (barcode_action q i)))
      (answer_codes user task q (i + 1) rest)

-- `task.program.as_ref().and_then(|p| p.question.as_ref())`
abbrev pub question_of : Option StepRef → Option Question
question_of none = none
question_of (some p) = p.question

unfoldable pub barcodes_for : User → Task → Option (List Barcode)
unfolding answer_codes
barcodes_for user task = in_order (barcode user task start_pause) (elim (question_of task.program) [
  | some q ↦ answer_codes user task q 0 (answers q)
  | none ↦ in_order (barcode user task finish) (some [])
])

abbrev pub described : Text → Option Text
described s = if is_empty (trim s) then none else some s

unfoldable pub build_task_job :
    Task → Board → List DepLine → (Uid → Text) → User → DateTime → Option PrintJob
unfolding barcodes_for
build_task_job task board deps names user now = elim (barcodes_for user task) [
  | none ↦ none
  | some barcodes ↦ some (record {
    kind = task_job;
    task_id = task.id;
    short_id = task.short_id;
    board_name = board.name;
    title = task.title;
    description = described task.description;
    start_at = task.start_at;
    due_at = task.due_at;
    dependencies = unless_empty deps;
    created_by = some (names task.created_by);
    assignees = unless_empty (map names task.assignees);
    checklist = task.checklist;
    barcodes = barcodes;
    sheet = [];
    codes = [];
    timezone = user.timezone;
    created_at = now;
  })
]
