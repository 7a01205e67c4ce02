-- ===== src/Transition/Moves.antt =====
-- What `plan_move` decides, on every branch, and what it does to the finished date.
use taskologic.Prelude.{
  ◌≡◌, ◌≢◌, ◌↔◌, ◌⊎◌, refl, none, some, Bool, true, false, List, [], ◌∷◌, arith,
}
use taskologic.Prelude.Tests.{◌==◌, if◌then◌else◌}
use taskologic.Prelude.Result.{Result, ok, err, is_ok}
use taskologic.Ids.{ColumnId, TaskId}
use taskologic.Time.{DateTime}
use taskologic.Board.{Board, has_column, is_empty}
use taskologic.Task.{Task, is_archived}
use taskologic.Transition.{MovePlan, MoveError, blocked_by_dependencies, plan_move}

-- A move that finishes the task.
abbrev pub Enters : Board → Task → ColumnId → Type 0
Enters b t to = (to ≡ b.finished_col) × (t.column_id ≢ b.finished_col)

pub is_empty_iff : {A : Type 0} (xs : List A) → (is_empty xs ≡ true) ↔ (xs ≡ [])
is_empty_iff [] = (λ h. refl, λ h. refl)
is_empty_iff (x ∷ xs) = (λ h. absurd (cc), λ h. absurd (cc))

is_ok_plan : (r : Result MovePlan MoveError) → is_ok r ≡ true → (plan : MovePlan) × (r ≡ ok plan)
is_ok_plan (ok p) h = (p, refl)
is_ok_plan (err e) h = absurd (cc)

module _ (b : Board) (t : Task) (to : ColumnId) (open_deps : List TaskId) (override_deps : Bool)
    (now : DateTime) where
  -- A move is refused because of dependencies exactly when the task is live, the column exists, the
  -- move finishes the task, some dependency is open and no override was given; the refusal lists
  -- the open dependencies.
  pub blocked_iff :
      (refused : List TaskId)
      → (plan_move b t to open_deps override_deps now ≡ err (blocked_by_dependencies refused)) ↔ (
          (is_archived t ≡ false)
          × (has_column b to ≡ true)
          × Enters b t to
          × (open_deps ≢ [])
          × (override_deps ≡ false)
          × (refused ≡ open_deps))
  unfolding plan_move
  blocked_iff refused =
      (λ h. ground (arith, is_empty_iff open_deps), λ h. ground (arith, is_empty_iff open_deps))

  -- A move is accepted exactly when the task is live, the column is on the board, and the move does
  -- not finish the task, or no dependency is open, or an override is given.
  pub accepted_iff :
      ((plan : MovePlan) × (plan_move b t to open_deps override_deps now ≡ ok plan)) ↔ (
        (is_archived t ≡ false)
        × (has_column b to ≡ true)
        × ((Enters b t to → ⊥) ⊎ ((open_deps ≡ []) ⊎ (override_deps ≡ true))))
  unfolding plan_move
  accepted_iff = (
    λ (plan, h). ground (arith, is_empty_iff open_deps),
    λ h.
        is_ok_plan (plan_move b t to open_deps override_deps now)
          (ground (arith, is_empty_iff open_deps)),
  )

  -- What an accepted move plans.
  pub plan-plan_move :
      (plan : MovePlan)
      → plan_move b t to open_deps override_deps now ≡ ok plan
      → (plan.to ≡ to)
        × (plan.from ≡ t.column_id)
        × (has_column b to ≡ true)
        × (is_archived t ≡ false)
        × ((to == b.finished_col) ≡ false
            → plan.finished_at ≡ (if t.column_id == b.finished_col then none else t.finished_at))
        × ((to == b.finished_col) ≡ true
            → plan.finished_at
              ≡ (if t.column_id == b.finished_col then t.finished_at else some now))
  unfolding plan_move
  plan-plan_move plan h = ground arith
