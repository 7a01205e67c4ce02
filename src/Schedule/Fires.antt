-- ===== src/Schedule/Fires.antt =====
-- A recurring rule fires again, on the first day that it may.
use native.Mathlib.Nat.{mod-lt, zero-mod}
use taskologic.Prelude.{
  ℕ, ◌+◌, ◌-◌, ◌%◌, ◌^◌, ◌≤◌, ◌<◌, min, ◌≡◌, refl, sym, ap, ◌∙◌, subst, inl, inr, ◌⊎◌, some, Bool,
  true, false, List, [], ◌∷◌, arith,
}
use taskologic.Prelude.Tests.{if◌then◌else◌, Bool-cases, ==_refl}
use taskologic.Prelude.Lists.{All}
use taskologic.Prelude.Int.{pos, ◌-ℤ◌, ◌≤ℤ◌, ltb_ℤ, leb_ℤ, +ℤ_parts, -ℤ_parts, eq_of_parts}
use taskologic.Prelude.Result.{ok}
use taskologic.Time.{DateTime, NaiveDate, NaiveTime}
use taskologic.Repeat.{
  Repeat, every_days, weekdays, day_of_month, fixed_date, RepeatSpec, validate_rule, validate_spec,
}
use taskologic.Schedule.{
  Calendar, days_from, matches, horizon_days, is_later, hits, first_date, fire_at, fire_from,
  next_fire_after,
}
use taskologic.Schedule.Dates.{days_on, days_on-zero, month_days, LawsFor, days_in_month-month_days}
use taskologic.Schedule.Days.{IsOn, IsLater, hits_iff, IsLater-leb}
use taskologic.Schedule.Loop.{IsFirst, fire_loop-IsFirst}
use taskologic.Schedule.Interval.{parts, days_from_self, days_from-days_on, meets}
use taskologic.Schedule.Months.{weekday_comes, day_comes}

-- A rule that is meant to fire again and again: its weekdays are weekdays, and its interval leaves
-- room for the horizon.
abbrev pub Recurs : Repeat → Type 0
Recurs (every_days every from) = every < 2 ^ 32 - 1
Recurs (weekdays days) = All (λ w. w < 7) days
Recurs (day_of_month day) = Unit
Recurs (fixed_date d) = ⊥

-- Where the loop starts.
abbrev pub start_date : Repeat → NaiveDate → NaiveDate
start_date (every_days every from) date = if ltb_ℤ date from then from else date
start_date _ date = date

module _ (c : Calendar) (spec : RepeatSpec) (local : NaiveDate × NaiveTime) where
  -- A later day is later, whatever the time.
  later_day : (k : ℕ) → 1 ≤ k → is_later (days_on local.0 k) spec.at local ≡ true
  later_day k h = ground (arith, +ℤ_parts local.0 (pos k))

  hit_met :
      (every : ℕ) (from date : NaiveDate)
      → spec.rule ≡ every_days every from
      → leb_ℤ from date ≡ true
      → days_from from date % every ≡ 0
      → is_later date spec.at local ≡ true
      → hits c spec local date ≡ true
  unfolding hits matches
  hit_met every from date e a m l = rw (e, matches, a, m, l) refl

  hit-every_days :
      (every : ℕ) (from : NaiveDate)
      → spec.rule ≡ every_days every from
      → 1 ≤ every
      → (k : ℕ) × (k < every + 1)
        × (hits c spec local (days_on (start_date (every_days every from) local.0) k) ≡ true)
  hit-every_days every from e h = elim (Bool-cases (ltb_ℤ local.0 from)) [
    | inl early ↦ (
      0,
      omega arith,
      rw early (
          subst (λ d. hits c spec local d ≡ true) (sym (days_on-zero from))
            (hit_met every from from e (ground arith)
              (ap (λ n. n % every) (days_from_self from) ∙ zero-mod every) (ground arith))),
    )
    | inr begun ↦
        let a = days_from from local.0 in
        let k = every - a % every in
        let less = mod-lt a {m = every} (omega arith) in
        let far = days_from-days_on from local.0 k (ground arith) in
        (
          k,
          omega arith,
          rw begun (
              hit_met every from (days_on local.0 k) e (ground (arith, +ℤ_parts local.0 (pos k)))
                (ap (λ n. n % every) far ∙ meets a every h) (later_day k (omega arith))),
        )
  ]

  hit-weekdays :
      (w : ℕ) (days : List ℕ)
      → spec.rule ≡ weekdays (w ∷ days)
      → w < 7
      → LawsFor c local.0 8
      → (k : ℕ) × (k < 8) × (hits c spec local (days_on local.0 k) ≡ true)
  unfolding hits matches
  hit-weekdays w days e h l =
      let (k, a, b, m) = weekday_comes c local.0 w h l in
      (k, b, rw (e, later_day k a, matches, m, ==_refl w) refl)

  hit-day_of_month :
      (day : ℕ)
      → spec.rule ≡ day_of_month day
      → 1 ≤ day
      → day ≤ 31
      → LawsFor c local.0 32
      → (k : ℕ) × (k < 32) × (hits c spec local (days_on local.0 k) ≡ true)
  unfolding hits matches
  hit-day_of_month day e x y l =
      let (k, a, b, m) = day_comes c local.0 day x y l in
      (
        k,
        b,
        rw
            (
              e,
              later_day k a,
              matches,
              days_in_month-month_days c (days_on local.0 k) (l k b),
              m,
              ==_refl (min day (month_days c (days_on local.0 k))),
            )
            refl,
      )

  -- Within the horizon some day is hit.
  hit :
      (rule : Repeat)
      → spec.rule ≡ rule
      → validate_rule rule ≡ ok tt
      → Recurs rule
      → LawsFor c (start_date rule local.0) (horizon_days rule)
      → (k : ℕ) × (k < horizon_days rule)
        × (hits c spec local (days_on (start_date rule local.0) k) ≡ true)
  hit (every_days every from) e v r l =
      let (k, b, h) = hit-every_days every from e (ground arith) in (k, omega arith, h)
  hit (weekdays []) e v r l = absurd (cc)
  hit (weekdays (w ∷ days)) e v r l = hit-weekdays w days e r.0 l
  hit (day_of_month day) e v r l = hit-day_of_month day e (ground arith) (ground arith) l
  hit (fixed_date d) e v r l = absurd r

  -- No day before the first that the loop looks at is one on which the rule fires.
  IsOn-start_date :
      (rule : Repeat) (date : NaiveDate)
      → Recurs rule
      → IsOn c rule date
      → IsLater date spec.at local
      → start_date rule local.0 ≤ℤ date
  IsOn-start_date (every_days every from) date r o m =
      let le = IsLater-leb date spec.at local m in ground (arith, o.0)
  IsOn-start_date (weekdays days) date r o m = IsLater-leb date spec.at local m
  IsOn-start_date (day_of_month day) date r o m = IsLater-leb date spec.at local m
  IsOn-start_date (fixed_date d) date r o m = absurd r

  -- The first day that is hit, counted from a start before all that count, is the first of all.
  first_of_all :
      (start : NaiveDate) (k n : ℕ) (date : NaiveDate)
      → IsFirst c spec local start k
      → LawsFor c start n
      → k < n
      → start ≤ℤ date
      → IsOn c spec.rule date
      → IsLater date spec.at local
      → days_on start k ≤ℤ date
  first_of_all start k n date f l b le o m =
      let i = days_from start date in
      let same : days_on start i ≡ date =
        eq_of_parts (days_on start i) date
          (omega (arith, +ℤ_parts start (pos i), -ℤ_parts date start, parts (date -ℤ start))) in
      elim (below_or_not i k) [
        | inl less ↦
            let h =
              (hits_iff c spec local (days_on start i) (l i (omega arith))).1
                (subst (λ d. IsOn c spec.rule d × IsLater d spec.at local) (sym same) (o, m)) in
            absurd (clash (f.before i less) h)
        | inr more ↦
            omega (arith, +ℤ_parts start (pos k), -ℤ_parts date start, parts (date -ℤ start))
      ]
    where
      below_or_not : (a b : ℕ) → (a < b) ⊎ (b ≤ a)
      below_or_not a b = ground arith

      clash : {b : Bool} → b ≡ false → b ≡ true → ⊥
      clash p q = cc

start_date-first_date :
    (rule : Repeat) (date : NaiveDate)
    → Recurs rule
    → first_date rule date ≡ some (start_date rule date)
start_date-first_date (every_days every from) date r = refl
start_date-first_date (weekdays days) date r = refl
start_date-first_date (day_of_month day) date r = refl
start_date-first_date (fixed_date d) date r = absurd r

-- A valid recurring rule, not a fixed date, whose interval is below 2 ^ 32 - 1 days and whose weekdays are
-- weekdays, fires again: where chrono's calendar goes on as the Gregorian one for the days of the
-- horizon, the loop never runs dry, and `next_fire_after` returns the moment that `local_to_utc` gives
-- for the rule's time on some date. The rule fires on that date, which with that time is later in local
-- time than the moment asked about, and no earlier date is such.
pub next_fire_after-IsFirst :
    (c : Calendar) (spec : RepeatSpec) (after : DateTime)
    → validate_spec spec ≡ ok tt
    → Recurs spec.rule
    → LawsFor c (start_date spec.rule (c.naive_local after spec.tz).0) (horizon_days spec.rule)
    → (date : NaiveDate) × (next_fire_after c spec after ≡ some (fire_at c spec date))
      × IsOn c spec.rule date
      × IsLater date spec.at (c.naive_local after spec.tz)
      × ((d : NaiveDate)
          → IsOn c spec.rule d
          → IsLater d spec.at (c.naive_local after spec.tz)
          → date ≤ℤ d)
unfolding next_fire_after
next_fire_after-IsFirst c spec after v r l =
    let local = c.naive_local after spec.tz in
    let start = start_date spec.rule local.0 in
    let n = horizon_days spec.rule in
    let (k, b, h) = hit c spec local spec.rule refl v r l in
    let (j, less, f, e) = fire_loop-IsFirst c spec local n start k l b h in
    let (o, m) = (hits_iff c spec local (days_on start j) (l j (omega arith))).0 f.hit in
    (
      days_on start j,
      ap (fire_from c spec local) (start_date-first_date spec.rule local.0 r) ∙ e,
      o,
      m,
      λ d p q.
          first_of_all c spec local start j n d f l (omega arith)
            (IsOn-start_date c spec local spec.rule d r p q) p q,
    )
