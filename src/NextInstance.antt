-- ===== src/NextInstance.antt =====
-- `next_instance` of crates/taskologic-core/src/repeat.rs: the draft of a repeating task's next copy.
-- chrono's `try_minutes` and `checked_add_signed` are parameters.
pub mod Drafts
use taskologic.Prelude.{ℕ, ◌≡◌, Option, none, some, Bool, true, false, List, [], ◌∷◌, map}
use taskologic.Prelude.Tests.{if◌then◌else◌}
use taskologic.Prelude.Lists.{keep}
use taskologic.Prelude.Int.{ℤ, leb_ℤ}
use taskologic.Time.{DateTime, TimeDelta, Offset, after}
use taskologic.Board.{Board, is_member}
use taskologic.Task.{Task, TaskDraft, ChecklistItem}
use taskologic.Repeat.{RepeatSpec}

module _ (try_minutes : ℕ → Option TimeDelta)
    (checked_add_signed : DateTime → TimeDelta → Option DateTime) where
  -- `and_then(|o| o.after(fired_at))`
  abbrev pub dated : Option Offset → DateTime → Option DateTime
  dated none fired_at = none
  dated (some o) fired_at = after try_minutes checked_add_signed o fired_at

  abbrev pub start_rule_of : Option RepeatSpec → Option Offset
  start_rule_of none = none
  start_rule_of (some r) = r.start_rule

  abbrev pub due_rule_of : Option RepeatSpec → Option Offset
  due_rule_of none = none
  due_rule_of (some r) = r.due_rule

  -- `due_at.filter(|d| start_at.is_none_or(|s| s <= *d))`
  abbrev pub due_after : Option DateTime → Option DateTime → Option DateTime
  due_after start_at none = none
  due_after none (some due) = some due
  due_after (some start) (some due) = if leb_ℤ start due then some due else none

  unfoldable pub next_instance : Task → Board → DateTime → TaskDraft
  next_instance t b fired_at =
      let start_at = dated (start_rule_of t.repeat) fired_at in
      let due_at = dated (due_rule_of t.repeat) fired_at in
      record {
        title = t.title;
        description = t.description;
        start_at = start_at;
        due_at = due_after start_at due_at;
        reminder_start_minutes = t.reminder_start_minutes;
        reminder_due_minutes = t.reminder_due_minutes;
        assignees = keep (λ u. is_member b u) t.assignees;
        depends_on = [];
        checklist = map (λ (c : ChecklistItem). record c { done = false }) t.checklist;
        repeat = t.repeat;
        print_rules = t.print_rules;
        auto_start = t.auto_start;
      }
