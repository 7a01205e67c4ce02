-- ===== src/Schedule/Tests.antt =====
-- Three months of a calendar, a task that repeats every Monday and Thursday, and one that repeats on the
-- last of each month.
use taskologic.Prelude.{
  ℕ, ◌+◌, ◌-◌, ◌*◌, ◌%◌, ◌≡◌, ◌≤◌, ◌<◌, refl, sym, subst, ap, ◌∙◌, some, none, true, [], ◌∷◌, arith,
}
use taskologic.Prelude.Tests.{◌==◌, ltb, if◌then◌else◌}
use taskologic.Prelude.Int.{pos, pos_part, ltb_ℤ, ◌+ℤ◌, ◌-ℤ◌, ◌≤ℤ◌, +ℤ_parts, -ℤ_parts, eq_of_parts}
use taskologic.Schedule.Interval.{parts}
use taskologic.Time.{NaiveDate}
use taskologic.Repeat.{weekdays, day_of_month, RepeatSpec}
use taskologic.Schedule.{Calendar, days_in_month, fire_at, next_fire_after}
use taskologic.Schedule.Local.{single, ambiguous, local_to_utc}
use taskologic.Schedule.Dates.{days_on, month_length, month_days, Laws, LawsFor}
use taskologic.Schedule.Days.{IsOn, IsLater}
use taskologic.Schedule.Fires.{next_fire_after-IsFirst}

-- Day 91 is the first of January 2024, day 122 that of February, day 151 that of March and day 182 that of
-- April. The local time is UTC.
abbrev months : Calendar
months = record {
  year = λ d. pos 2024;
  month = λ d. if ltb (pos_part d) 122 then 1 else if ltb (pos_part d) 151 then 2 else 3;
  day = λ d.
      if ltb (pos_part d) 122
      then pos_part d - 90
      else if ltb (pos_part d) 151
      then pos_part d - 121
      else pos_part d - 150;
  weekday = λ d. pos_part d % 7;
  from_ymd_opt = λ y m d. some (pos ((if m == 2 then 121 else if m == 3 then 150 else 181) + d));
  pred_opt = λ d. some (d -ℤ pos 1);
  succ_opt = λ d. some (d +ℤ pos 1);
  naive_local = λ at tz. (pos 121, 600);
  and_time = λ d t. pos (pos_part d * 86400 + t);
  from_local_datetime = λ tz n. single n;
  from_utc_datetime = λ n. n;
}

abbrev twice_a_week : RepeatSpec
twice_a_week = record {
  rule = weekdays (0 ∷ 3 ∷ []);
  at = 540;
  tz = 0;
  start_rule = none;
  due_rule = none;
}

-- Day 121 is a Wednesday, and the Thursday after it is day 122.
fires : next_fire_after months twice_a_week (pos 0) ≡ some (pos (122 * 86400 + 540))
unfolding next_fire_after local_to_utc ◌+ℤ◌
fires = refl

abbrev monthly : RepeatSpec
monthly = record twice_a_week { rule = day_of_month 31 }

-- After the 31st of January comes the 29th of February.
fires_leap_day : next_fire_after months monthly (pos 0) ≡ some (pos (150 * 86400 + 540))
unfolding next_fire_after local_to_utc days_in_month ◌+ℤ◌ ◌-ℤ◌
fires_leap_day = refl

-- Where a local time comes twice the earlier moment is taken, also if the later one is asked about: the
-- clock shows 500 a second time at moment 9560, and the rule fires at 540 of that day for the first time
-- at moment 6000.
abbrev fold : Calendar
fold = record months {
  naive_local = λ at tz. (pos 122, 500);
  from_local_datetime = λ tz n. ambiguous (pos 6000) (pos 9600);
}

fires_before : ltb_ℤ (pos 6000) (pos 9560) ≡ true
fires_before = refl

fires_in_fold : next_fire_after fold twice_a_week (pos 9560) ≡ some (pos 6000)
unfolding next_fire_after local_to_utc
fires_in_fold = refl

days_later : (n k : ℕ) → pos n +ℤ pos k ≡ pos (n + k)
days_later n k =
    eq_of_parts (pos n +ℤ pos k) (pos (n + k))
      (omega (arith, +ℤ_parts (pos n) (pos k), parts (pos n +ℤ pos k)))

day_before_next : (d : NaiveDate) (n : ℕ) → days_on d (n + 1) -ℤ pos 1 ≡ days_on d n
day_before_next d n = eq_of_parts (days_on d (n + 1) -ℤ pos 1) (days_on d n) (
    omega
      (arith, -ℤ_parts (days_on d (n + 1)) (pos 1), +ℤ_parts d (pos n), +ℤ_parts d (pos (n + 1))))

months-Laws : (n : ℕ) → 121 ≤ n → n < 153 → Laws months (pos n)
unfolding month_length
months-Laws n low high =
    let left = month_days months (pos n) - months.day (pos n) in
    let next = ap pos_part (days_later n 1) in
    record {
      next_date = refl;
      weekday_next = omega (arith, next);
      weekday_lt = omega arith;
      day_in = ground arith;
      same_month = λ m. ground (arith, next);
      next_month = λ m. ground (arith, next);
      new_year = λ m. absurd (ground arith);
      new_month =
          λ m. ap (λ x. some (pos x)) (ground arith) ∙ ap some (sym (days_later n (left + 1)));
      last_date = ap some (day_before_next (pos n) left);
      last_day = ap months.day (days_later n left) ∙ ground arith;
    }

months-LawsFor : LawsFor months (pos 121) 32
months-LawsFor k h =
    subst (Laws months) (sym (days_later 121 k)) (months-Laws (121 + k) (omega arith) (omega arith))

next_fire_after-IsFirst_example :
    (date : NaiveDate) × (next_fire_after months monthly (pos 0)
      ≡ some (fire_at months monthly date))
    × IsOn months monthly.rule date
    × IsLater date 540 (pos 121, 600)
    × ((d : NaiveDate) → IsOn months monthly.rule d → IsLater d 540 (pos 121, 600) → date ≤ℤ d)
next_fire_after-IsFirst_example =
    next_fire_after-IsFirst months monthly (pos 0) refl tt months-LawsFor
