-- ===== src/Schedule.antt =====
-- crates/taskologic-core/src/repeat.rs: on which days a repetition fires, and `next_fire_after`.
-- What the code asks chrono about dates is a record of operations. A local moment is a date and a time.
pub mod Local
pub mod Dates
pub mod Days
pub mod Loop
pub mod Interval
pub mod Months
pub mod Fires
pub mod Tests
use taskologic.Prelude.{
  ℕ, zero, suc, ◌+◌, ◌-◌, ◌%◌, ◌^◌, min, ◌≡◌, Option, none, some, Bool, true, false, ◌&&◌, ◌||◌,
}
use taskologic.Prelude.Tests.{◌==◌, ltb, if◌then◌else◌}
use taskologic.Prelude.Lists.{contains}
use taskologic.Prelude.Int.{ℤ, pos, pos_part, neg_part, ◌+ℤ◌, ◌-ℤ◌, ltb_ℤ, leb_ℤ}
use taskologic.Time.{DateTime, NaiveDate, NaiveTime, Tz}
use taskologic.Schedule.Local.{LocalResult, NaiveDateTime, local_to_utc}
use taskologic.Repeat.{Repeat, every_days, weekdays, day_of_month, fixed_date, RepeatSpec}

pub record Calendar : Type 0 where
  pub year : NaiveDate → ℤ
  pub month : NaiveDate → ℕ
  pub day : NaiveDate → ℕ
  pub weekday : NaiveDate → ℕ
  pub from_ymd_opt : ℤ → ℕ → ℕ → Option NaiveDate
  pub pred_opt : NaiveDate → Option NaiveDate
  pub succ_opt : NaiveDate → Option NaiveDate
  -- `with_timezone` and `naive_local`
  pub naive_local : DateTime → Tz → NaiveDate × NaiveTime
  pub and_time : NaiveDate → NaiveTime → NaiveDateTime
  pub from_local_datetime : Tz → NaiveDateTime → LocalResult
  pub from_utc_datetime : NaiveDateTime → DateTime

-- `next.and_then(|n| n.pred_opt()).map(|d| d.day()).unwrap_or(28)`
abbrev pub day_before : Calendar → Option NaiveDate → ℕ
day_before c none = 28
day_before c (some n) = elim (c.pred_opt n) [ none ↦ 28 | some d ↦ c.day d ]

unfoldable pub days_in_month : Calendar → NaiveDate → ℕ
days_in_month c date = day_before c (
    if c.month date == 12
    then c.from_ymd_opt (c.year date +ℤ pos 1) 1 1
    else c.from_ymd_opt (c.year date) (c.month date + 1) 1)

-- The days from a date on to another, which is not before it.
abbrev pub days_from : NaiveDate → NaiveDate → ℕ
days_from from date = pos_part (date -ℤ from)

unfoldable pub matches : Calendar → Repeat → NaiveDate → Bool
matches c (every_days every from) date = leb_ℤ from date && days_from from date % every == 0
matches c (weekdays days) date = contains days (c.weekday date)
matches c (day_of_month day) date = c.day date == min day (days_in_month c date)
matches c (fixed_date d) date = leb_ℤ date d && leb_ℤ d date

-- `saturating_add` on a u32
abbrev pub horizon_days : Repeat → ℕ
horizon_days (every_days every from) = min (every + 1) (2 ^ 32 - 1)
horizon_days (weekdays days) = 8
horizon_days (day_of_month day) = 32
horizon_days (fixed_date d) = 1

-- `date.and_time(at) > local`
abbrev pub is_later : NaiveDate → NaiveTime → NaiveDate × NaiveTime → Bool
is_later date at (d, t) = ltb_ℤ d date || (leb_ℤ d date && ltb t at)

-- The two conditions of the loop.
unfoldable pub hits : Calendar → RepeatSpec → NaiveDate × NaiveTime → NaiveDate → Bool
hits c spec local date = matches c spec.rule date && is_later date spec.at local

-- `local_to_utc(self.tz, date.and_time(self.at))`
abbrev pub fire_at : Calendar → RepeatSpec → NaiveDate → DateTime
fire_at c spec date =
    local_to_utc c.from_local_datetime c.from_utc_datetime spec.tz (c.and_time date spec.at)

-- The loop over at most so many days.
unfoldable pub fire_loop :
    Calendar → RepeatSpec → NaiveDate × NaiveTime → ℕ → NaiveDate → Option DateTime
unfolding hits matches
fire_loop c spec local zero date = none
fire_loop c spec local (suc upto) date =
    let rest = fire_loop c spec local upto in
    if hits c spec local date
    then some (fire_at c spec date)
    else elim (c.succ_opt date) [ none ↦ none | some next ↦ rest next ]

-- The first date that the loop looks at, and none where the rule is exhausted.
abbrev pub first_date : Repeat → NaiveDate → Option NaiveDate
first_date (fixed_date d) date = if ltb_ℤ d date then none else some d
first_date (every_days every from) date = some (if ltb_ℤ date from then from else date)
first_date _ date = some date

abbrev pub fire_from :
    Calendar → RepeatSpec → NaiveDate × NaiveTime → Option NaiveDate → Option DateTime
fire_from c spec local none = none
fire_from c spec local (some date) = fire_loop c spec local (horizon_days spec.rule) date

unfoldable pub next_fire_after : Calendar → RepeatSpec → DateTime → Option DateTime
unfolding fire_loop
next_fire_after c spec after =
    let local = c.naive_local after spec.tz in fire_from c spec local (first_date spec.rule local.0)
