-- ===== src/Schedule/Days.antt =====
-- On which days a rule fires, stated apart from the code.
use taskologic.Prelude.{
  ℕ, ◌%◌, ◌<◌, min, ◌≡◌, ◌≢◌, ◌⊎◌, ◌↔◌, refl, true, List, [], ◌∷◌, inl, inr, arith,
}
use taskologic.Prelude.Tests.{◌==◌, Bool-cases, &&-eq-true}
use taskologic.Prelude.Lists.{In, here, there, contains}
use taskologic.Prelude.Int.{◌≤ℤ◌, eq_of_parts}
use taskologic.Time.{NaiveDate, NaiveTime}
use taskologic.Repeat.{Repeat, every_days, weekdays, day_of_month, fixed_date, RepeatSpec}
use taskologic.Schedule.{Calendar, days_from, matches, is_later, hits}
use taskologic.Schedule.Dates.{month_days, Laws, days_in_month-month_days}

-- A whole number of intervals after the first day; on a weekday; on a day of the month, or on the last
-- day of a month that is shorter; on one date.
abbrev pub IsOn : Calendar → Repeat → NaiveDate → Type 0
IsOn c (every_days every from) date = (from ≤ℤ date) × (days_from from date % every ≡ 0)
IsOn c (weekdays days) date = In (c.weekday date) days
IsOn c (day_of_month day) date = c.day date ≡ min day (month_days c date)
IsOn c (fixed_date d) date = date ≡ d

-- On a later day, or later on the same day.
abbrev pub IsLater : NaiveDate → NaiveTime → NaiveDate × NaiveTime → Type 0
IsLater date at (d, t) = ((d ≤ℤ date) × (date ≢ d)) ⊎ ((date ≡ d) × (t < at))

contains_iff : (ts : List ℕ) (t : ℕ) → (contains ts t ≡ true) ↔ In t ts
contains_iff [] t = (λ h. absurd (cc), λ m. elim m [ ])
contains_iff (s ∷ ts) t =
    let (to, from) = contains_iff ts t in
    elim (Bool-cases (s == t)) [
      | inl e ↦ let same : t ≡ s = ground arith in rw e (λ h. here same, λ m. refl)
      | inr e ↦
          rw e
            (λ h. there (to h), λ m. from (elim m [ here x ↦ absurd (ground arith) | there k ↦ k ]))
    ]

matches_iff :
    (c : Calendar) (rule : Repeat) (date : NaiveDate)
    → Laws c date
    → (matches c rule date ≡ true) ↔ IsOn c rule date
unfolding matches
matches_iff c (every_days every from) date l = (λ h. ground arith, λ h. ground arith)
matches_iff c (weekdays days) date l = contains_iff days (c.weekday date)
matches_iff c (day_of_month day) date l =
    rw (matches, days_in_month-month_days c date l) (λ h. ground arith, λ h. ground arith)
matches_iff c (fixed_date d) date l = (λ h. ground (arith, eq_of_parts date d), λ h. ground arith)

is_later_iff :
    (date : NaiveDate) (at : NaiveTime) (local : NaiveDate × NaiveTime)
    → (is_later date at local ≡ true) ↔ IsLater date at local
is_later_iff date at (d, t) =
    (λ h. ground (arith, eq_of_parts date d), λ h. ground (arith, eq_of_parts date d))

pub hits_iff :
    (c : Calendar) (spec : RepeatSpec) (local : NaiveDate × NaiveTime) (date : NaiveDate)
    → Laws c date
    → (hits c spec local date ≡ true) ↔ (IsOn c spec.rule date × IsLater date spec.at local)
unfolding hits
hits_iff c spec local date l =
    let (to, from) = matches_iff c spec.rule date l in
    let (on, back) = is_later_iff date spec.at local in
    (
      λ h.
          let (a, b) = &&-eq-true (matches c spec.rule date) (is_later date spec.at local) h in
          (to a, on b),
      λ (a, b). cc (from a, back b),
    )

pub IsLater-leb :
    (date : NaiveDate) (at : NaiveTime) (local : NaiveDate × NaiveTime)
    → IsLater date at local
    → local.0 ≤ℤ date
IsLater-leb date at (d, t) (inl (le, _)) = le
IsLater-leb date at (d, t) (inr (e, _)) = rw e (omega arith)
