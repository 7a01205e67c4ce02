-- ===== src/Time.antt =====
-- Moments and lengths of time, and crates/taskologic-core/src/offset.rs.
-- chrono's types are numbers here: a `DateTime<Utc>` and a `TimeDelta` count nanoseconds, a `NaiveDate`
-- days and a `NaiveTime` nanoseconds of the day; a `Tz` is its place in the zone table. chrono's
-- partial operations are parameters.
use taskologic.Prelude.{ℕ, ◌*◌, ◌^◌, ◌-◌, Option, none, some}
use taskologic.Prelude.Tests.{leb, if◌then◌else◌}
use taskologic.Prelude.Int.{ℤ}

abbrev pub DateTime : Type 0
DateTime = ℤ

abbrev pub TimeDelta : Type 0
TimeDelta = ℤ

abbrev pub NaiveTime : Type 0
NaiveTime = ℕ

abbrev pub NaiveDate : Type 0
NaiveDate = ℤ

abbrev pub Tz : Type 0
Tz = ℕ

pub data OffsetUnit : Type 0 where
  minutes_unit hours_unit days_unit : OffsetUnit

abbrev pub minutes : OffsetUnit → ℕ
minutes minutes_unit = 1
minutes hours_unit = 60
minutes days_unit = 24 * 60

pub record Offset : Type 0 where
  pub amount : ℕ
  pub unit : OffsetUnit

abbrev pub max_offset_amount : ℕ
max_offset_amount = 100000

-- `checked_mul` on an i64 that is not negative.
abbrev pub checked_mul : ℕ → ℕ → Option ℕ
checked_mul a b = if leb (a * b) (2 ^ 63 - 1) then some (a * b) else none

module _ (try_minutes : ℕ → Option TimeDelta)
    (checked_add_signed : DateTime → TimeDelta → Option DateTime) where
  unfoldable pub delta : Offset → Option TimeDelta
  delta o = elim (checked_mul o.amount (minutes o.unit)) [ none ↦ none | some m ↦ try_minutes m ]

  unfoldable pub after : Offset → DateTime → Option DateTime
  unfolding delta
  after o from = elim (delta o) [ none ↦ none | some d ↦ checked_add_signed from d ]
