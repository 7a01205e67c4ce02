-- ===== src/Lifecycle/Clock.antt =====
-- What holds of a task's row at every moment of its life.
use taskologic.Prelude.{
  suc, ◌≤◌, ◌≡◌, ◌≢◌, refl, sym, ◌∙◌, subst, inl, inr, Option, none, some, Bool, true, false, List,
  arith,
}
use taskologic.Prelude.Tests.{◌==◌, Bool-cases, ==_refl}
use taskologic.Prelude.Int.{ℤ}
use taskologic.Prelude.Result.{ok}
use taskologic.Ids.{TaskId}
use taskologic.Time.{DateTime, TimeDelta}
use taskologic.Board.{Board, has_column}
use taskologic.Task.{Task, is_archived}
use taskologic.Transition.{MovePlan, plan_move, restore_column, archive_due_at}
use taskologic.Transition.Moves.{plan-plan_move}
use taskologic.Transition.Scans.{restore_column-has_column}
use taskologic.Lifecycle.{
  apply_move, archive_task, soft_delete_task, restore_task, Step, move, archive, delete, restore,
  Steps, done, and_then,
}

pub record IsConsistent (b : Board) (t : Task) : Type 0 where
  -- The task stands in a column of the board.
  pub placed : has_column b t.column_id ≡ true
  -- A live task outside the finished column has no finished date.
  pub unfinished : is_archived t ≡ false → t.column_id ≢ b.finished_col → t.finished_at ≡ none
  -- An archived task remembers where it was, and a deleted one is archived.
  pub remembered : is_archived t ≡ true → t.archived_from_col ≡ some t.column_id
  pub deleted : t.deleted_at ≢ none → is_archived t ≡ true

Step-IsConsistent : (b : Board) (t u : Task) → Step b t u → IsConsistent b t → IsConsistent b u
unfolding apply_move archive_task soft_delete_task restore_task
Step-IsConsistent b t u (move _ to deps override now plan position next h) c =
    let (p, q, m, a, x, y) = plan-plan_move b t to deps override now plan h in
    record {
      placed = subst (λ k. has_column b k ≡ true) (sym p) m;
      unfinished = λ l n. elim (Bool-cases (t.column_id == b.finished_col)) [
        | inl f ↦ ground (arith, x)
        | inr f ↦ x (ground arith) ∙ rw f (c.unfinished a (ground arith))
      ];
      remembered = λ l. absurd (cc);
      deleted = c.deleted;
    }
Step-IsConsistent b t u (archive _ now a f g) c = record {
  placed = c.placed;
  unfinished = λ l n. absurd (cc);
  remembered = λ l. refl;
  deleted = λ n. refl;
}
Step-IsConsistent b t u (delete _ now a) c = record {
  placed = c.placed;
  unfinished = λ l n. absurd (cc);
  remembered = λ l. refl;
  deleted = λ n. refl;
}
Step-IsConsistent b t u (restore _ to next a r) c = record {
  placed = restore_column-has_column b t to r;
  unfinished = λ l n. refl;
  remembered = λ l. absurd (cc);
  deleted = λ n. absurd (n refl);
}

Step-version : (b : Board) (t u : Task) → Step b t u → u.version ≡ suc t.version
unfolding apply_move archive_task soft_delete_task restore_task
Step-version b t u (move _ to deps override now plan position next h) = refl
Step-version b t u (archive _ now a f g) = refl
Step-version b t u (delete _ now a) = refl
Step-version b t u (restore _ to next a r) = refl

-- However a task is moved, archived, deleted and restored, it stands in a column of its board, has no
-- finished date while it is live outside the finished column, remembers in the archive the column it
-- was in, is in the archive when it is deleted, and its version never goes down.
pub Steps-IsConsistent :
    (b : Board) (t u : Task)
    → Steps b t u
    → IsConsistent b t
    → IsConsistent b u × (t.version ≤ u.version)
Steps-IsConsistent b t u done c = (c, omega arith)
Steps-IsConsistent b t u (and_then {t = m} s rest) c =
    let (k, v) = Steps-IsConsistent b m u rest (Step-IsConsistent b t m s c) in
    (k, omega (arith, v, Step-version b t m s))

-- A task that was archived from the finished column, which is still on the board, is restored to the
-- finished column without a finished date: the archive clock does not run for it, and a move within
-- the column does not start the clock either.
pub archive_due_at-restore_task :
    (seconds : ℤ → TimeDelta) (checked_add_signed : DateTime → TimeDelta → Option DateTime)
    (b : Board) (t : Task) (next : ℤ) (open_deps : List TaskId) (override_deps : Bool)
    (now : DateTime) (plan : MovePlan)
    → t.archived_from_col ≡ some b.finished_col
    → has_column b b.finished_col ≡ true
    → plan_move b (restore_task t b.finished_col next) b.finished_col open_deps override_deps now
      ≡ ok plan
    → (restore_column b t ≡ some b.finished_col)
      × (archive_due_at seconds checked_add_signed b (restore_task t b.finished_col next) ≡ none)
      × (plan.finished_at ≡ none)
archive_due_at-restore_task seconds checked_add_signed b t next open_deps override_deps now plan f h
      m =
    let r = restore_task t b.finished_col next in
    let (_, _, _, _, _, y) = plan-plan_move b r b.finished_col open_deps override_deps now plan m in
    (
      unfold restore_column in rw (f, h) refl,
      unfold archive_due_at restore_task in ground arith,
      y (==_refl b.finished_col) ∙ (unfold restore_task in rw (==_refl b.finished_col) refl),
    )
