-- ===== src/Schedule/Local.antt =====
-- `local_to_utc` of repeat.rs: which moment a wall clock shows. chrono's search for the moments of a local
-- time, and its reading of one as if it were UTC, are parameters.
use taskologic.Prelude.{Option, none, some}
use taskologic.Prelude.Int.{ℤ, pos, ◌+ℤ◌}
use taskologic.Time.{DateTime, Tz}

-- chrono's `LocalResult`, in UTC; `gap` is its `None`.
pub data LocalResult : Type 0 where
  single : DateTime → LocalResult
  ambiguous : DateTime → DateTime → LocalResult
  gap : LocalResult

-- A local date and time, in nanoseconds.
abbrev pub NaiveDateTime : Type 0
NaiveDateTime = ℤ

-- Of two moments the earlier: the arm `Single(dt) | Ambiguous(dt, _)`, and `earliest`.
abbrev pub first_local : LocalResult → Option DateTime
first_local (single dt) = some dt
first_local (ambiguous dt _) = some dt
first_local gap = none

abbrev pub or_else : {A : Type 0} → Option A → A → A
or_else none a = a
or_else (some b) a = b

-- In a gap, an hour later. An hour has 3600 * 10^9 nanoseconds.
unfoldable pub local_to_utc :
    (Tz → NaiveDateTime → LocalResult) → (NaiveDateTime → DateTime) → Tz → NaiveDateTime → DateTime
local_to_utc from_local_datetime from_utc_datetime tz naive =
    or_else (first_local (from_local_datetime tz naive)) (
      or_else (first_local (from_local_datetime tz (naive +ℤ pos 3600000000000)))
        (from_utc_datetime naive))
