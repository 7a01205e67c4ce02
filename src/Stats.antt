-- ===== src/Stats.antt =====
-- crates/taskologic-core/src/stats.rs: what a task's trail says about how long it took.
-- Differences and sums of chrono's moments and lengths are those of the integers: what overflows
-- chrono's range panics in the source and does not arise from dates of a trail.
pub mod Spent
pub mod Duration
pub mod Tests
use taskologic.Prelude.{ℕ, ◌≡◌, Option, none, some, Bool, true, false, not, ◌&&◌, List, [], ◌∷◌}
use taskologic.Prelude.Tests.{◌==◌, if◌then◌else◌}
use taskologic.Prelude.Int.{ℤ, pos, ◌+ℤ◌, ◌-ℤ◌, max_ℤ}
use taskologic.Ids.{ColumnId}
use taskologic.Time.{DateTime, TimeDelta}
use taskologic.Board.{is_some}

pub record Transition : Type 0 where
  pub at : DateTime
  pub to : Option ColumnId

pub record Timings : Type 0 where
  pub started_at : Option DateTime
  pub finished_at : Option DateTime
  pub time_taken : Option TimeDelta
  pub wall_clock : Option TimeDelta

abbrev pub running : Timings → Bool
running t = is_some t.started_at && not (is_some t.finished_at)

-- `t.to == Some(col)`
abbrev pub lands_in : Option ColumnId → ColumnId → Bool
lands_in none col = false
lands_in (some c) col = c == col

-- The variables of the loop.
pub record Clock : Type 0 where
  pub total : TimeDelta
  pub running_since : Option DateTime
  pub started_at : Option DateTime
  pub finished_at : Option DateTime

abbrev pub zero_clock : Clock
zero_clock = record { total = pos 0; running_since = none; started_at = none; finished_at = none }

-- Leaving the started column banks what was accrued in it.
abbrev pub bank : Bool → DateTime → Option DateTime → Clock → Clock
bank true at since c = c
bank false at none c = c
bank false at (some since) c = record c { total = c.total +ℤ (at -ℤ since); running_since = none }

-- `get_or_insert`
abbrev pub get_or_insert : Option DateTime → DateTime → Option DateTime
get_or_insert none at = some at
get_or_insert (some s) at = some s

abbrev pub enter : Bool → DateTime → Option DateTime → Clock → Clock
enter true at none c = record c {
  running_since = some at;
  started_at = get_or_insert c.started_at at;
}
enter _ at _ c = c

-- One round of the loop, for a transition that enters the started column or not, and the finished
-- column or not.
abbrev pub round_at : Bool → Bool → DateTime → Clock → Clock
round_at entering finishing at c =
    let banked = bank entering at c.running_since c in
    let entered = enter entering at banked.running_since banked in
    record entered { finished_at = if finishing then some at else none }

unfoldable pub round : ColumnId → ColumnId → Transition → Clock → Clock
round started_col finished_col t c =
    round_at (lands_in t.to started_col) (lands_in t.to finished_col) t.at c

unfoldable pub run_clock : ColumnId → ColumnId → List Transition → Clock → Clock
unfolding round
run_clock started_col finished_col [] c = c
run_clock started_col finished_col (t ∷ trail) c =
    run_clock started_col finished_col trail (round started_col finished_col t c)

abbrev pub bank_now : Option DateTime → DateTime → TimeDelta → TimeDelta
bank_now none now total = total
bank_now (some since) now total = total +ℤ (max_ℤ now since -ℤ since)

-- `unwrap_or`
abbrev pub or_now : Option DateTime → DateTime → DateTime
or_now none now = now
or_now (some at) now = at

abbrev pub if_started : Option DateTime → (DateTime → TimeDelta) → Option TimeDelta
if_started none f = none
if_started (some start) f = some (f start)

unfoldable pub timings_of : Clock → DateTime → Timings
timings_of c now = record {
  started_at = c.started_at;
  finished_at = c.finished_at;
  time_taken = if_started c.started_at (λ start. bank_now c.running_since now c.total);
  wall_clock = if_started c.started_at (λ start. max_ℤ (or_now c.finished_at now -ℤ start) (pos 0));
}

unfoldable pub timings : List Transition → ColumnId → ColumnId → DateTime → Timings
unfolding run_clock timings_of
timings trail started_col finished_col now =
    timings_of (run_clock started_col finished_col trail zero_clock) now
