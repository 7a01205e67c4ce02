-- ===== src/Stats/Spent.antt =====
-- The time taken is never negative and never more than the wall clock.
use taskologic.Prelude.{
  ◌≡◌, ◌≢◌, refl, sym, subst, Option, none, some, Bool, true, false, List, [], ◌∷◌, arith,
}
use taskologic.Prelude.Tests.{if◌then◌else◌}
use taskologic.Prelude.Int.{ℤ, pos, ◌+ℤ◌, ◌-ℤ◌, ◌≤ℤ◌, max_ℤ, eq_of_parts, +ℤ_parts, -ℤ_parts}
use taskologic.Ids.{ColumnId}
use taskologic.Time.{DateTime, TimeDelta}
use taskologic.Stats.{
  Transition, lands_in, Clock, zero_clock, round_at, round, run_clock, timings_of, timings,
  if_started, bank_now, or_now,
}

-- What the loop has added up at a moment: for a task not started, nothing; for a paused task, at most
-- the time from its start; for a running one, at most the time up to when it went on.
abbrev Spent : Option DateTime → Option DateTime → TimeDelta → DateTime → Type 0
Spent none none total at = (pos 0 ≤ℤ total) × (total ≤ℤ pos 0)
Spent none (some since) total at = ⊥
Spent (some start) none total at = (pos 0 ≤ℤ total) × (total +ℤ start ≤ℤ at)
Spent (some start) (some since) total at =
    (pos 0 ≤ℤ total) × (total +ℤ start ≤ℤ since) × (since ≤ℤ at)

-- A finished task finished last of all, and is not running.
abbrev Ended : Option DateTime → Option DateTime → DateTime → Type 0
Ended none since at = Unit
Ended (some finish) none at = finish ≡ at
Ended (some finish) (some since) at = ⊥

abbrev Timed : Clock → DateTime → Type 0
Timed c at = Spent c.started_at c.running_since c.total at × Ended c.finished_at c.running_since at

ended : (at : DateTime) (f : Bool) → Ended (if f then some at else none) none at
ended at true = refl
ended at false = tt

module _ (last at total : ℤ) (fin : Option DateTime) (le : last ≤ℤ at) where
  abbrev clock : Option DateTime → Option DateTime → Clock
  clock start run = record {
    total = total;
    running_since = run;
    started_at = start;
    finished_at = fin;
  }

  round_at-Timed :
      (entering finishing : Bool) (start run : Option DateTime)
      → (entering ≡ true → finishing ≡ true → ⊥)
      → Spent start run total last
      → Timed (round_at entering finishing at (clock start run)) at
  round_at-Timed true true start run n s = absurd (n refl refl)
  round_at-Timed true false none none n (a, b) =
      ((a, omega (arith, +ℤ_parts total at), omega arith), tt)
  round_at-Timed true false none (some since) n s = absurd s
  round_at-Timed true false (some start) none n (a, b) =
      ((a, omega (arith, +ℤ_parts total start), omega arith), tt)
  round_at-Timed true false (some start) (some since) n (a, b, c) = ((a, b, omega arith), tt)
  round_at-Timed false f none none n s = (s, ended at f)
  round_at-Timed false f none (some since) n s = absurd s
  round_at-Timed false f (some start) none n (a, b) = ((a, omega arith), ended at f)
  round_at-Timed false f (some start) (some since) n (a, b, c) = (
    (
      omega (arith, -ℤ_parts at since, +ℤ_parts total (at -ℤ since)),
      omega (
        arith,
        -ℤ_parts at since,
        +ℤ_parts total (at -ℤ since),
        +ℤ_parts total start,
        +ℤ_parts (total +ℤ (at -ℤ since)) start,
      ),
    ),
    ended at f,
  )

-- Oldest first, from a moment on, and before another.
abbrev pub Ordered : DateTime → List Transition → DateTime → Type 0
Ordered from [] now = from ≤ℤ now
Ordered from (t ∷ trail) now = (from ≤ℤ t.at) × Ordered t.at trail now

apart :
    (started_col finished_col : ColumnId) (to : Option ColumnId)
    → started_col ≢ finished_col
    → lands_in to started_col ≡ true
    → lands_in to finished_col ≡ true
    → ⊥
apart started_col finished_col none n a b = cc
apart started_col finished_col (some c) n a b = ground arith

max_ℤ-later : (now since : ℤ) → since ≤ℤ now → max_ℤ now since ≡ now
max_ℤ-later now since h = ground (arith, eq_of_parts since now)

some_inj : {a b : ℤ} → some a ≡ some b → a ≡ b
some_inj h = cc

-- The bounds, from what the loop has added up at the end.
Bounded :
    (start run fin : Option DateTime) (total last now taken wall : ℤ)
    → last ≤ℤ now
    → Spent start run total last
    → Ended fin run last
    → if_started start (λ s. bank_now run now total) ≡ some taken
    → if_started start (λ s. max_ℤ (or_now fin now -ℤ s) (pos 0)) ≡ some wall
    → (pos 0 ≤ℤ taken) × (taken ≤ℤ wall)
Bounded none run fin total last now taken wall le s e t w = absurd (cc)
Bounded (some start) none none total last now taken wall le (a, b) e t w =
    subst (λ x. (pos 0 ≤ℤ x) × (x ≤ℤ wall)) (some_inj t)
      (subst (λ y. (pos 0 ≤ℤ total) × (total ≤ℤ y)) (some_inj w)
        (a, ground (arith, -ℤ_parts now start, +ℤ_parts total start)))
Bounded (some start) none (some f) total last now taken wall le (a, b) e t w =
    subst (λ x. (pos 0 ≤ℤ x) × (x ≤ℤ wall)) (some_inj t)
      (subst (λ y. (pos 0 ≤ℤ total) × (total ≤ℤ y)) (some_inj w)
        (a, ground (arith, -ℤ_parts f start, +ℤ_parts total start)))
Bounded (some start) (some since) none total last now taken wall le (a, b, c) e t w =
    let m : max_ℤ now since ≡ now = max_ℤ-later now since (omega arith) in
    let more = now -ℤ since in
    subst (λ x. (pos 0 ≤ℤ x) × (x ≤ℤ wall)) (some_inj t)
      (subst
        (λ y.
          (pos 0 ≤ℤ total +ℤ (max_ℤ now since -ℤ since))
          × (total +ℤ (max_ℤ now since -ℤ since) ≤ℤ y))
        (some_inj w)
        (subst
          (λ k.
            (pos 0 ≤ℤ total +ℤ (k -ℤ since))
            × (total +ℤ (k -ℤ since) ≤ℤ max_ℤ (now -ℤ start) (pos 0)))
          (sym m)
          (
            omega (arith, -ℤ_parts now since, +ℤ_parts total more),
            ground (
              arith,
              -ℤ_parts now start,
              +ℤ_parts total start,
              -ℤ_parts now since,
              +ℤ_parts total more,
            ),
          )))
Bounded (some start) (some since) (some f) total last now taken wall le s e t w = absurd e

module _ (started_col finished_col : ColumnId) (n : started_col ≢ finished_col) where
  run_clock-Timed :
      (trail : List Transition) (c : Clock) (from now : DateTime)
      → Ordered from trail now
      → Timed c from
      → (last : DateTime) × (last ≤ℤ now) × Timed (run_clock started_col finished_col trail c) last
  unfolding run_clock round
  run_clock-Timed [] c from now o t = (from, o, t)
  run_clock-Timed (t ∷ trail) c from now (o, os) (s, e) =
      let next =
        round_at-Timed from t.at c.total c.finished_at o (lands_in t.to started_col)
          (lands_in t.to finished_col) c.started_at c.running_since
          (apart started_col finished_col t.to n) s in
      run_clock-Timed trail (round started_col finished_col t c) t.at now os next

  -- For a trail that is ordered oldest first and ends by now, on a board whose started and finished
  -- columns differ, the time taken is neither negative nor more than the wall clock.
  pub timings-Bounded :
      (trail : List Transition) (from now : DateTime) (taken wall : TimeDelta)
      → Ordered from trail now
      → (timings trail started_col finished_col now).time_taken ≡ some taken
      → (timings trail started_col finished_col now).wall_clock ≡ some wall
      → (pos 0 ≤ℤ taken) × (taken ≤ℤ wall)
  unfolding timings timings_of
  timings-Bounded trail from now taken wall o t w =
      let c = run_clock started_col finished_col trail zero_clock in
      let (last, le, (s, e)) =
        run_clock-Timed trail zero_clock from now o ((omega arith, omega arith), tt) in
      Bounded c.started_at c.running_since c.finished_at c.total last now taken wall le s e t w
