-- ===== src/Transition/Scans.antt =====
-- A scan's target, the archive's clocks and where a restored task goes.
use taskologic.Prelude.{
  ◌≡◌, ◌≢◌, refl, ap, Option, none, some, Bool, true, false, List, [], ◌∷◌, arith, inl, inr, ◌⊎◌,
  sym, subst,
}
use taskologic.Prelude.Tests.{◌==◌, if◌then◌else◌, Bool-cases, Option-cases, if-rule, ==_refl}
use taskologic.Prelude.Lists.{find, In, here, there}
use taskologic.Prelude.Int.{ℤ, ltb_ℤ}
use taskologic.Prelude.Result.{ok, err}
use taskologic.Ids.{ColumnId, TaskId}
use taskologic.Time.{DateTime, TimeDelta}
use taskologic.Barcode.{
  ScanAction, start_pause, finish, yes_answer, no_answer, choice, finish_children,
}
use taskologic.Board.{
  Board, Column, has_column, leftmost, first_of, is_some, is_empty, validate_roles, all_roles,
}
use taskologic.Board.Removal.{validate_roles_iff}
use taskologic.Task.{Task, is_archived}
use taskologic.Transition.{
  MovePlan, blocked_by_dependencies, plan_move, target, scan_target, archive_due_at, leftmost_id,
  restore_column,
}
use taskologic.Transition.Moves.{accepted_iff, blocked_iff, is_empty_iff, plan-plan_move}
use taskologic.Lifecycle.{apply_move}

leftmost-In : (c : Column) (cs : List Column) → In (leftmost c cs) (c ∷ cs)
unfolding leftmost
leftmost-In c [] = here refl
leftmost-In c (d ∷ cs) =
    if-rule (ltb_ℤ d.position c.position) (λ x. In x (c ∷ d ∷ cs)) (there (leftmost-In d cs))
      (widen (leftmost-In c cs))
  where
    widen : {x : Column} → In x (c ∷ cs) → In x (c ∷ d ∷ cs)
    widen (here e) = here e
    widen (there m) = there (there m)

In-has_id :
    (x : Column) (cs : List Column)
    → In x cs
    → is_some (find (λ (d : Column). d.id == x.id) cs) ≡ true
In-has_id x [] m = elim m [ ]
In-has_id x (c ∷ cs) (here e) =
    subst (λ i. is_some (find (λ (d : Column). d.id == i) (c ∷ cs)) ≡ true)
      (ap (λ (d : Column). d.id) (sym e)) (rw (==_refl c.id) refl)
In-has_id x (c ∷ cs) (there m) = ground (arith, In-has_id x cs m)

first_of-has_id :
    (cs : List Column) (id : ColumnId)
    → leftmost_id (first_of cs) ≡ some id
    → is_some (find (λ (d : Column). d.id == id) cs) ≡ true
unfolding first_of
first_of-has_id [] id h = absurd (cc)
first_of-has_id (c ∷ cs) id h =
    let e : (leftmost c cs).id ≡ id = ground arith in
    subst (λ i. is_some (find (λ (d : Column). d.id == i) (c ∷ cs)) ≡ true) e
      (In-has_id (leftmost c cs) (c ∷ cs) (leftmost-In c cs))

-- A restored task goes to a column of the board.
pub restore_column-has_column :
    (b : Board) (t : Task) (to : ColumnId) → restore_column b t ≡ some to → has_column b to ≡ true
unfolding restore_column has_column
restore_column-has_column b t to h = elim (Option-cases t.archived_from_col) [
  | inl e ↦ first_of-has_id b.columns to (ground arith)
  | inr (c, e) ↦ ground (arith, first_of-has_id b.columns to)
]

target-has_column :
    (action : ScanAction) (b : Board) (t : Task)
    → validate_roles b all_roles ≡ ok tt
    → has_column b (target action b t) ≡ true
target-has_column start_pause b t v = ground (arith, (validate_roles_iff b).0 v)
target-has_column finish b t v = let (_, _, f) = (validate_roles_iff b).0 v in f
target-has_column yes_answer b t v = let (_, _, f) = (validate_roles_iff b).0 v in f
target-has_column no_answer b t v = let (_, _, f) = (validate_roles_iff b).0 v in f
target-has_column (choice n) b t v = let (_, _, f) = (validate_roles_iff b).0 v in f
target-has_column finish_children b t v = let (_, _, f) = (validate_roles_iff b).0 v in f

-- The branch that a target's own condition takes.
scan_target-ok :
    (action : ScanAction) (b : Board) (t : Task) (to : ColumnId)
    → scan_target action b t ≡ ok to
    → (is_archived t ≡ false) × (t.column_id ≢ b.finished_col) × (target action b t ≡ to)
unfolding scan_target
scan_target-ok action b t to h = ground arith

-- On a board whose roles are columns of it, the move that a scan asks for is accepted, or it is refused
-- for its open dependencies: never for an unknown column or an archived task. The refusal lists the
-- open dependencies, and needs that there are some, that no override is given and that the move is
-- to the finished column.
pub plan_move-scan_target :
    (action : ScanAction) (b : Board) (t : Task) (to : ColumnId) (open_deps : List TaskId)
    (override_deps : Bool) (now : DateTime)
    → validate_roles b all_roles ≡ ok tt
    → scan_target action b t ≡ ok to
    → ((plan : MovePlan) × (plan_move b t to open_deps override_deps now ≡ ok plan))
      ⊎ ((plan_move b t to open_deps override_deps now ≡ err (blocked_by_dependencies open_deps))
          × (open_deps ≢ [])
          × (override_deps ≡ false)
          × (to ≡ b.finished_col))
plan_move-scan_target action b t to open_deps override_deps now v h =
    let (a, n, e) = scan_target-ok action b t to h in
    let known : has_column b to ≡ true =
      subst (λ c. has_column b c ≡ true) e (target-has_column action b t v) in
    let accepted = (accepted_iff b t to open_deps override_deps now).1 in
    let blocked = (blocked_iff b t to open_deps override_deps now open_deps).1 in
    elim (Bool-cases (to == b.finished_col)) [
      | inr elsewhere ↦ inl (accepted (a, known, inl (λ m. ground arith)))
      | inl finishes ↦ elim (Bool-cases override_deps) [
        | inl o ↦ inl (accepted (a, known, inr (inr o)))
        | inr o ↦ elim (Bool-cases (is_empty open_deps)) [
          | inl none_open ↦
              inl (accepted (a, known, inr (inl ((is_empty_iff open_deps).0 none_open))))
          | inr some_open ↦
              let some_pending : open_deps ≢ [] = λ z. cc ((is_empty_iff open_deps).1 z) in
              let same : to ≡ b.finished_col = ground arith in
              inr (blocked (a, known, (same, n), some_pending, o, refl), some_pending, o, same)
        ]
      ]
    ]

-- After an accepted move to the finished column the archive clock of a task that comes from another
-- column runs for the board's delay from the moment of the move, and that of a task that was there
-- already is unchanged. After an accepted move to any other column a task has no archive clock.
pub archive_due_at-plan_move :
    (seconds : ℤ → TimeDelta) (checked_add_signed : DateTime → TimeDelta → Option DateTime)
    (b : Board) (t : Task) (to : ColumnId) (open_deps : List TaskId) (override_deps : Bool)
    (now : DateTime) (plan : MovePlan) (position : Option ℤ) (next : ℤ)
    → plan_move b t to open_deps override_deps now ≡ ok plan
    → archive_due_at seconds checked_add_signed b (apply_move t plan position next) ≡ (
        if to == b.finished_col
        then if t.column_id == b.finished_col
          then archive_due_at seconds checked_add_signed b t
          else checked_add_signed now (seconds b.archive_after_secs)
        else none)
unfolding archive_due_at apply_move
archive_due_at-plan_move seconds checked_add_signed b t to open_deps override_deps now plan position
      next h =
    let (p, q, c, a, x, y) = plan-plan_move b t to open_deps override_deps now plan h in
    elim (Bool-cases (to == b.finished_col)) [
      | inl e ↦ elim (Bool-cases (t.column_id == b.finished_col)) [
        | inl s ↦ let f : plan.finished_at ≡ t.finished_at = ground arith in rw (p, a, e, s, f) refl
        | inr s ↦ let f : plan.finished_at ≡ some now = ground arith in rw (p, a, e, s, f) refl
      ]
      | inr e ↦ rw (p, a, e) refl
    ]
