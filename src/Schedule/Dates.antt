-- ===== src/Schedule/Dates.antt =====
-- Days one after the other, the lengths of the months, and what is asked of chrono's calendar.
use taskologic.Prelude.{
  ℕ, suc, ◌+◌, ◌-◌, ◌%◌, ◌≤◌, ◌<◌, ◌≡◌, ◌≢◌, sym, subst, some, Bool, not, ◌&&◌, ◌||◌, inl, inr,
  arith,
}
use taskologic.Prelude.Tests.{◌==◌, if◌then◌else◌, Bool-cases}
use taskologic.Prelude.Int.{ℤ, pos, pos_part, neg_part, ◌+ℤ◌, +ℤ_parts, eq_of_parts}
use taskologic.Time.{NaiveDate}
use taskologic.Schedule.{Calendar, day_before, days_in_month}

-- So many days on.
abbrev pub days_on : NaiveDate → ℕ → NaiveDate
days_on date k = date +ℤ pos k

pub days_on-zero : (date : NaiveDate) → days_on date 0 ≡ date
days_on-zero date = eq_of_parts (days_on date 0) date (omega (arith, +ℤ_parts date (pos 0)))

pub days_on-suc : (date : NaiveDate) (k : ℕ) → days_on (days_on date 1) k ≡ days_on date (suc k)
days_on-suc date k = eq_of_parts (days_on (days_on date 1) k) (days_on date (suc k)) (
    omega (
      arith,
      +ℤ_parts date (pos 1),
      +ℤ_parts (days_on date 1) (pos k),
      +ℤ_parts date (pos (suc k)),
    ))

pub days_on-next : (date : NaiveDate) (k : ℕ) → days_on (days_on date k) 1 ≡ days_on date (suc k)
days_on-next date k = eq_of_parts (days_on (days_on date k) 1) (days_on date (suc k)) (
    omega (
      arith,
      +ℤ_parts date (pos k),
      +ℤ_parts (days_on date k) (pos 1),
      +ℤ_parts date (pos (suc k)),
    ))

-- The Gregorian calendar: leap years, and how many days a month has.
abbrev pub is_leap : ℤ → Bool
is_leap y = let n = pos_part y + neg_part y in n % 4 == 0 && (not (n % 100 == 0) || n % 400 == 0)

unfoldable pub month_length : ℤ → ℕ → ℕ
month_length y m =
    if m == 2
    then if is_leap y then 29 else 28
    else if m == 4 || m == 6 || m == 9 || m == 11
    then 30
    else 31

pub month_length_bounds : (y : ℤ) (m : ℕ) → (28 ≤ month_length y m) × (month_length y m ≤ 31)
unfolding month_length
month_length_bounds y m = (ground arith, ground arith)

abbrev pub month_days : Calendar → NaiveDate → ℕ
month_days c d = month_length (c.year d) (c.month d)

-- What the documentation of chrono says of a date that is not among its last: the next date and its
-- weekday, where both stand in the Gregorian calendar, the first date of the next month, and the date
-- before that.
pub record Laws (c : Calendar) (d : NaiveDate) : Type 0 where
  pub next_date : c.succ_opt d ≡ some (days_on d 1)
  pub weekday_next : c.weekday (days_on d 1) ≡ (c.weekday d + 1) % 7
  pub weekday_lt : c.weekday d < 7
  pub day_in : (1 ≤ c.day d) × (c.day d ≤ month_days c d)
  pub same_month :
      c.day d < month_days c d
      → (c.day (days_on d 1) ≡ c.day d + 1)
        × (c.month (days_on d 1) ≡ c.month d)
        × (c.year (days_on d 1) ≡ c.year d)
  pub next_month : c.day d ≡ month_days c d → c.day (days_on d 1) ≡ 1
  pub new_year :
      c.month d ≡ 12
      → c.from_ymd_opt (c.year d +ℤ pos 1) 1 1 ≡ some (days_on d (month_days c d - c.day d + 1))
  pub new_month :
      c.month d ≢ 12
      → c.from_ymd_opt (c.year d) (c.month d + 1) 1
        ≡ some (days_on d (month_days c d - c.day d + 1))
  pub last_date :
      c.pred_opt (days_on d (month_days c d - c.day d + 1))
      ≡ some (days_on d (month_days c d - c.day d))
  pub last_day : c.day (days_on d (month_days c d - c.day d)) ≡ month_days c d

day_before-some :
    (c : Calendar) (n d : NaiveDate) (k : ℕ)
    → c.pred_opt n ≡ some d
    → c.day d ≡ k
    → day_before c (some n) ≡ k
day_before-some c n d k p e = rw (day_before, p) e

-- The code finds the length of the month that a date is in.
pub days_in_month-month_days :
    (c : Calendar) (d : NaiveDate) → Laws c d → days_in_month c d ≡ month_days c d
unfolding days_in_month
days_in_month-month_days c d l =
    let left = month_days c d - c.day d in
    let last =
      day_before-some c (days_on d (left + 1)) (days_on d left) (month_days c d) l.last_date
        l.last_day in
    elim (Bool-cases (c.month d == 12)) [
      | inl e ↦ rw (days_in_month, e, l.new_year (ground arith)) last
      | inr e ↦ rw (days_in_month, e, l.new_month (λ m. ground arith)) last
    ]

-- They hold of so many dates in a row.
abbrev pub LawsFor : Calendar → NaiveDate → ℕ → Type 0
LawsFor c start n = (k : ℕ) → k < n → Laws c (days_on start k)

pub LawsFor-suc :
    (c : Calendar) (start : NaiveDate) (n : ℕ)
    → LawsFor c start (suc n)
    → LawsFor c (days_on start 1) n
LawsFor-suc c start n l k h = subst (Laws c) (sym (days_on-suc start k)) (l (suc k) (omega arith))
