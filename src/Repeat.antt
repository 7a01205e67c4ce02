-- ===== src/Repeat.antt =====
-- crates/taskologic-core/src/repeat.rs: the repetition a task carries. A `Weekday` is its number from
-- Monday.
use taskologic.Prelude.{ℕ, ◌||◌, not, Option, List, [], ◌∷◌}
use taskologic.Prelude.Tests.{leb, ◌==◌, if◌then◌else◌}
use taskologic.Prelude.Result.{Check, ok, err}
use taskologic.Time.{NaiveDate, NaiveTime, Tz, Offset}

pub data Repeat : Type 0 where
  every_days : ℕ → NaiveDate → Repeat
  weekdays : List ℕ → Repeat
  day_of_month : ℕ → Repeat
  fixed_date : NaiveDate → Repeat

pub record RepeatSpec : Type 0 where
  pub rule : Repeat
  pub at : NaiveTime
  pub tz : Tz
  pub start_rule : Option Offset
  pub due_rule : Option Offset

pub data RepeatError : Type 0 where
  zero_interval no_weekdays bad_day_of_month : RepeatError

abbrev pub validate_rule : Repeat → Check RepeatError
validate_rule (every_days every from) = if every == 0 then err zero_interval else ok tt
validate_rule (weekdays []) = err no_weekdays
validate_rule (weekdays (d ∷ ds)) = ok tt
validate_rule (day_of_month day) =
    if not (leb 1 day) || not (leb day 31) then err bad_day_of_month else ok tt
validate_rule (fixed_date date) = ok tt

abbrev pub validate_spec : RepeatSpec → Check RepeatError
validate_spec r = validate_rule r.rule
