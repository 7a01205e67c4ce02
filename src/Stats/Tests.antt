-- ===== src/Stats/Tests.antt =====
-- A task that was started, paused, started again and finished.
use taskologic.Prelude.{◌*◌, ◌^◌, ◌≤◌, ◌<◌, ◌↔◌, ◌≡◌, refl, some, List, [], ◌∷◌, arith}
use taskologic.Prelude.Lists.{length}
use taskologic.Prelude.Text.{text}
use taskologic.Prelude.Int.{pos, ◌≤ℤ◌, ◌+ℤ◌, ◌-ℤ◌}
use taskologic.Stats.{Transition, timings}
use taskologic.Stats.Spent.{timings-Bounded}
use taskologic.Stats.Duration.{format_duration, seconds, length-format_duration_iff}

abbrev trail : List Transition
trail =
    record { at = pos 10; to = some 2 }
    ∷ record { at = pos 30; to = some 3 }
    ∷ record { at = pos 50; to = some 2 }
    ∷ record { at = pos 60; to = some 4 }
    ∷ []

trail_runs :
    ((timings trail 2 4 (pos 100)).time_taken ≡ some (pos 30))
    × ((timings trail 2 4 (pos 100)).wall_clock ≡ some (pos 50))
unfolding timings ◌+ℤ◌ ◌-ℤ◌
trail_runs = (refl, refl)

timings-Bounded_example : (pos 0 ≤ℤ pos 30) × (pos 30 ≤ℤ pos 50)
timings-Bounded_example =
    timings-Bounded 2 4 (λ e. omega arith) trail (pos 0) (pos 100) (pos 30) (pos 50)
      (omega arith, (omega arith, (omega arith, (omega arith, omega arith)))) (trail_runs.0)
      (trail_runs.1)

length-format_duration_iff_example :
    (length (format_duration (pos (8100 * 10 ^ 9))) ≤ 7)
    ↔ (seconds (pos (8100 * 10 ^ 9)) < 10 ^ 6 * 86400)
length-format_duration_iff_example = length-format_duration_iff (pos (8100 * 10 ^ 9))

two_hours : format_duration (pos (8100 * 10 ^ 9)) ≡ text "2h 15m"
unfolding format_duration
two_hours = refl
