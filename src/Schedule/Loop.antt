-- ===== src/Schedule/Loop.antt =====
-- The loop over the days finds the first day that is hit, if there is one in its reach.
use taskologic.Prelude.{
  ℕ, zero, suc, ◌≤◌, ◌<◌, ◌≡◌, refl, sym, ap, ◌∙◌, subst, some, true, false, inl, inr, arith,
}
use taskologic.Prelude.Tests.{Bool-cases}
use taskologic.Time.{NaiveDate, NaiveTime}
use taskologic.Repeat.{RepeatSpec}
use taskologic.Schedule.{Calendar, hits, fire_at, fire_loop}
use taskologic.Schedule.Dates.{days_on, days_on-zero, days_on-suc, Laws, LawsFor, LawsFor-suc}

-- The first day that is hit.
pub record IsFirst (c : Calendar) (spec : RepeatSpec) (local : NaiveDate × NaiveTime)
    (start : NaiveDate) (k : ℕ) : Type 0 where
  pub hit : hits c spec local (days_on start k) ≡ true
  pub before : (i : ℕ) → i < k → hits c spec local (days_on start i) ≡ false

IsFirst-suc :
    (c : Calendar) (spec : RepeatSpec) (local : NaiveDate × NaiveTime) (start : NaiveDate) (k : ℕ)
    → hits c spec local start ≡ false
    → IsFirst c spec local (days_on start 1) k
    → IsFirst c spec local start (suc k)
IsFirst-suc c spec local start k h f = record {
  hit = subst (λ d. hits c spec local d ≡ true) (days_on-suc start k) f.hit;
  before = earlier;
}
  where
    earlier : (i : ℕ) → i < suc k → hits c spec local (days_on start i) ≡ false
    earlier zero l = subst (λ d. hits c spec local d ≡ false) (sym (days_on-zero start)) h
    earlier (suc i) l =
        subst (λ d. hits c spec local d ≡ false) (days_on-suc start i) (f.before i (omega arith))

hit_now :
    (c : Calendar) (spec : RepeatSpec) (local : NaiveDate × NaiveTime) (upto : ℕ)
    (start : NaiveDate)
    → hits c spec local start ≡ true
    → fire_loop c spec local (suc upto) start ≡ some (fire_at c spec (days_on start 0))
unfolding fire_loop
hit_now c spec local upto start h =
    rw h (ap (λ d. some (fire_at c spec d)) (sym (days_on-zero start)))

hit_later :
    (c : Calendar) (spec : RepeatSpec) (local : NaiveDate × NaiveTime) (upto : ℕ)
    (start : NaiveDate) (j : ℕ)
    → hits c spec local start ≡ false
    → c.succ_opt start ≡ some (days_on start 1)
    → fire_loop c spec local upto (days_on start 1)
      ≡ some (fire_at c spec (days_on (days_on start 1) j))
    → fire_loop c spec local (suc upto) start ≡ some (fire_at c spec (days_on start (suc j)))
unfolding fire_loop
hit_later c spec local upto start j h n r =
    rw (h, n) (r ∙ ap (λ d. some (fire_at c spec d)) (days_on-suc start j))

later_hit :
    (c : Calendar) (spec : RepeatSpec) (local : NaiveDate × NaiveTime) (start : NaiveDate) (k : ℕ)
    → hits c spec local start ≡ false
    → hits c spec local (days_on start k) ≡ true
    → (i : ℕ) × (k ≡ suc i)
later_hit c spec local start zero n h =
    absurd (false_true (sym n ∙ subst (λ d. hits c spec local d ≡ true) (days_on-zero start) h))
  where
    false_true : false ≡ true → ⊥
    false_true e = cc
later_hit c spec local start (suc i) n h = (i, refl)

pub fire_loop-IsFirst :
    (c : Calendar) (spec : RepeatSpec) (local : NaiveDate × NaiveTime) (upto : ℕ)
    (start : NaiveDate) (k : ℕ)
    → LawsFor c start upto
    → k < upto
    → hits c spec local (days_on start k) ≡ true
    → (j : ℕ) × (j ≤ k)
      × IsFirst c spec local start j
      × (fire_loop c spec local upto start ≡ some (fire_at c spec (days_on start j)))
fire_loop-IsFirst c spec local zero start k l b h = absurd (omega arith)
fire_loop-IsFirst c spec local (suc upto) start k l b h =
    elim (Bool-cases (hits c spec local start)) [
      | inl now ↦
          let same = sym (days_on-zero start) in
          (
            0,
            omega arith,
            record {
              hit = subst (λ d. hits c spec local d ≡ true) same now;
              before = λ i m. absurd (omega arith);
            },
            hit_now c spec local upto start now,
          )
      | inr later ↦
          let (i, e) = later_hit c spec local start k later h in
          let next = (subst (Laws c) (days_on-zero start) (l 0 (omega arith))).next_date in
          let (j, less, f, r) =
            fire_loop-IsFirst c spec local upto (days_on start 1) i (LawsFor-suc c start upto l)
              (omega arith)
              (subst (λ d. hits c spec local d ≡ true) (sym (days_on-suc start i))
                (subst (λ n. hits c spec local (days_on start n) ≡ true) e h)) in
          (
            suc j,
            omega arith,
            IsFirst-suc c spec local start j later f,
            hit_later c spec local upto start j later next r,
          )
    ]
