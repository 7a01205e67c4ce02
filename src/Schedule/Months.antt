-- ===== src/Schedule/Months.antt =====
-- Weekdays and days of the month come round within the horizon.
use taskologic.Prelude.{
  ℕ, zero, suc, ◌+◌, ◌-◌, ◌%◌, ◌≤◌, ◌<◌, min, ◌≡◌, sym, ap, ◌∙◌, subst, inl, inr, ◌⊎◌, arith,
}
use taskologic.Prelude.Int.{ℤ, pos, +ℤ_parts, eq_of_parts}
use taskologic.Time.{NaiveDate}
use taskologic.Schedule.{Calendar}
use taskologic.Schedule.Dates.{
  days_on, days_on-zero, days_on-next, month_length, month_length_bounds, month_days, Laws, LawsFor,
}

days_on-add : (date : NaiveDate) (a b : ℕ) → days_on (days_on date a) b ≡ days_on date (a + b)
days_on-add date a b = eq_of_parts (days_on (days_on date a) b) (days_on date (a + b)) (
    omega (
      arith,
      +ℤ_parts date (pos a),
      +ℤ_parts (days_on date a) (pos b),
      +ℤ_parts date (pos (a + b)),
    ))

LawsFor-shift :
    (c : Calendar) (start : NaiveDate) (a n m : ℕ)
    → LawsFor c start n
    → a + m ≤ n
    → LawsFor c (days_on start a) m
LawsFor-shift c start a n m l h k b =
    subst (Laws c) (sym (days_on-add start a k)) (l (a + k) (omega arith))

weekday_walk :
    (c : Calendar) (start : NaiveDate) (k : ℕ)
    → LawsFor c start (suc k)
    → c.weekday (days_on start k) ≡ (c.weekday start + k) % 7
weekday_walk c start zero l =
    let laws = subst (Laws c) (days_on-zero start) (l 0 (omega arith)) in
    ap c.weekday (days_on-zero start) ∙ omega (arith, laws.weekday_lt)
weekday_walk c start (suc k) l =
    ap c.weekday (sym (days_on-next start k))
    ∙ (l k (omega arith)).weekday_next
    ∙ omega (arith, weekday_walk c start k (λ i b. l i (omega arith)))

-- Some later day within a week is a given weekday.
pub weekday_comes :
    (c : Calendar) (start : NaiveDate) (w : ℕ)
    → w < 7
    → LawsFor c start 8
    → (k : ℕ) × (1 ≤ k) × (k < 8) × (c.weekday (days_on start k) ≡ w)
weekday_comes c start w h l =
    let laws = subst (Laws c) (days_on-zero start) (l 0 (omega arith)) in
    let x = c.weekday start in
    let k = (w + 6 - x) % 7 + 1 in
    (
      k,
      omega arith,
      omega arith,
      weekday_walk c start k (λ i b. l i (omega arith)) ∙ omega (arith, laws.weekday_lt),
    )

same_length : {y z : ℤ} {m n : ℕ} → m ≡ n → y ≡ z → month_length y m ≡ month_length z n
same_length p q = cc

month_walk :
    (c : Calendar) (start : NaiveDate) (k : ℕ)
    → LawsFor c start (suc k)
    → c.day start + k ≤ month_days c start
    → (c.day (days_on start k) ≡ c.day start + k)
      × (month_days c (days_on start k) ≡ month_days c start)
month_walk c start zero l h =
    (ap c.day (days_on-zero start) ∙ omega arith, ap (month_days c) (days_on-zero start))
month_walk c start (suc k) l h =
    let (d, m) = month_walk c start k (λ i b. l i (omega arith)) (omega arith) in
    let (d', m', y') = (l k (omega arith)).same_month (omega arith) in
    (
      ap c.day (sym (days_on-next start k)) ∙ d' ∙ omega arith,
      ap (month_days c) (sym (days_on-next start k)) ∙ same_length m' y' ∙ m,
    )

-- The first day of the next month.
next_first :
    (c : Calendar) (start : NaiveDate) (k : ℕ)
    → LawsFor c start (suc k)
    → c.day start + k ≡ month_days c start
    → c.day (days_on start (suc k)) ≡ 1
next_first c start k l h =
    let (d, m) = month_walk c start k l (omega arith) in
    ap c.day (sym (days_on-next start k)) ∙ (l k (omega arith)).next_month (omega arith)

-- Some later day within 31 days is a given day of the month, or the month's last where it is shorter.
pub day_comes :
    (c : Calendar) (start : NaiveDate) (day : ℕ)
    → 1 ≤ day
    → day ≤ 31
    → LawsFor c start 32
    → (k : ℕ) × (1 ≤ k)
      × (k < 32)
      × (c.day (days_on start k) ≡ min day (month_days c (days_on start k)))
day_comes c start day low high l =
    let laws = subst (Laws c) (days_on-zero start) (l 0 (omega arith)) in
    let x = c.day start in
    let m = month_days c start in
    let bounds = month_length_bounds (c.year start) (c.month start) in
    elim (here_or_next x (min day m)) [
      | inl soon ↦
          let k = min day m - x in
          let (d, same) = month_walk c start k (λ i b. l i (omega (arith, bounds))) (omega arith) in
          (k, omega arith, omega (arith, laws.day_in, bounds), d ∙ omega (arith, same))
      | inr past ↦
          let j = m - x in
          let first =
            next_first c start j (λ i b. l i (omega (arith, laws.day_in, bounds)))
              (omega (arith, laws.day_in)) in
          let next = days_on start (suc j) in
          let size = month_length_bounds (c.year next) (c.month next) in
          let k = min day (month_days c next) - 1 in
          let (d, same) =
            month_walk c next k
              (LawsFor-shift c start (suc j) 32 (suc k) l
                (omega (arith, laws.day_in, bounds, size)))
              (omega arith) in
          let at = days_on-add start (suc j) k in
          (
            suc j + k,
            omega arith,
            omega (arith, laws.day_in, bounds, size),
            subst (λ e. c.day e ≡ min day (month_days c e)) at (d ∙ omega (arith, same)),
          )
    ]
  where
    here_or_next : (a b : ℕ) → (a < b) ⊎ (b ≤ a)
    here_or_next a b = ground arith
