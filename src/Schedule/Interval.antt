-- ===== src/Schedule/Interval.antt =====
-- Days counted from a date on, and the next day that an interval meets.
use native.Mathlib.Nat.{mod-add-mod, mod_self, mod-lt}
use taskologic.Prelude.{ℕ, ◌+◌, ◌-◌, ◌%◌, ◌≤◌, ◌≡◌, ◌⊎◌, inl, inr, refl, sym, ap, ◌∙◌, arith}
use taskologic.Prelude.Int.{ℤ, pos, pos_part, neg_part, ◌-ℤ◌, ◌≤ℤ◌, +ℤ_parts, -ℤ_parts}
use taskologic.Time.{NaiveDate}
use taskologic.Schedule.{days_from}
use taskologic.Schedule.Dates.{days_on}

pub parts : (a : ℤ) → (pos_part a ≡ 0) ⊎ (neg_part a ≡ 0)
parts (pos n) = inr refl
parts (ℤ.negsuc n) = inl refl

pub days_from_self : (from : NaiveDate) → days_from from from ≡ 0
days_from_self from = omega (arith, -ℤ_parts from from, parts (from -ℤ from))

pub days_from-days_on :
    (from date : NaiveDate) (k : ℕ)
    → from ≤ℤ date
    → days_from from (days_on date k) ≡ days_from from date + k
days_from-days_on from date k h = omega (
  arith,
  +ℤ_parts date (pos k),
  -ℤ_parts (days_on date k) from,
  -ℤ_parts date from,
  parts (days_on date k -ℤ from),
  parts (date -ℤ from),
)

-- So many days later is a day that the interval meets.
pub meets : (a every : ℕ) → 1 ≤ every → (a + (every - a % every)) % every ≡ 0
meets a every h =
    sym (mod-add-mod a every (every - a % every))
    ∙ ap (λ n. n % every) (sum a every h)
    ∙ mod_self every
  where
    sum : (a every : ℕ) → 1 ≤ every → a % every + (every - a % every) ≡ every
    sum a every h = omega (arith, mod-lt a {m = every} (omega arith))
