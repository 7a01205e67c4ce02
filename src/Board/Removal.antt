-- ===== src/Board/Removal.antt =====
-- What an accepted removal of a column leaves behind.
pub mod Roles
use taskologic.Prelude.{
  ℕ, suc, ◌+◌, ◌<◌, ◌≡◌, ◌≢◌, ◌↔◌, ◌⊎◌, inl, inr, refl, sym, subst, Option, none, some, Bool, true,
  false, List, [], ◌∷◌, arith, not, ◌&&◌,
}
use taskologic.Prelude.Tests.{◌==◌, leb, if◌then◌else◌, Bool-cases, Option-cases, ==_iff}
use taskologic.Prelude.Lists.{length, find, keep, contains}
use taskologic.Prelude.Result.{Result, Check, ok, err}
use taskologic.Ids.{ColumnId}
use taskologic.Board.{
  Board, Column, BoardError, ColumnRole, started, paused, finished, ColumnRemoval, has_column,
  column_for, set_role, set_roles, remove_column, without, validate_roles, roles_of, role_eq,
  is_some, check_destination, check_move, reassign_loop, replacement_for, plan_column_removal,
  all_roles,
}
use taskologic.Board.Removal.Roles.{Stays, check_destination-Stays, has_role, set_roles-Stays}

-- What `plan_column_removal` accepts, it has checked.
accepted :
    (b : Board) (col : ColumnId) (has_tasks : Bool) (dest : Option ColumnId)
    (reps : List (ColumnRole × ColumnId)) (plan : ColumnRemoval)
    → plan_column_removal b col has_tasks dest reps ≡ ok plan
    → (reassign_loop b col reps (roles_of b col) ≡ ok plan.reassign_roles)
      × (plan.removed ≡ col)
      × (has_column b col ≡ true)
      × (check_move b col dest ≡ ok tt)
      × (plan.move_tasks_to ≡ (if has_tasks then dest else none))
      × ((has_tasks && not (is_some dest)) ≡ false)
unfolding plan_column_removal
accepted b col has_tasks dest reps plan h =
    split (check_move b col dest) refl (reassign_loop b col reps (roles_of b col)) refl
  where
    split :
        (x : Check BoardError)
        → check_move b col dest ≡ x
        → (y : Result (List (ColumnRole × ColumnId)) BoardError)
        → reassign_loop b col reps (roles_of b col) ≡ y
        → (reassign_loop b col reps (roles_of b col) ≡ ok plan.reassign_roles)
          × (plan.removed ≡ col)
          × (has_column b col ≡ true)
          × (check_move b col dest ≡ ok tt)
          × (plan.move_tasks_to ≡ (if has_tasks then dest else none))
          × ((has_tasks && not (is_some dest)) ≡ false)
    split (err x) ex y ey = absurd (ground arith)
    split (ok tt) ex (err y) ey = absurd (ground arith)
    split (ok tt) ex (ok rs) ey = ground arith

-- A role that the removed column held is one that the loop covers.
covered :
    (b : Board) (col : ColumnId) (r : ColumnRole)
    → has_column b (column_for b r) ≡ true
    → has_role (roles_of b col) r ≡ true ⊎ Stays b col (column_for b r)
covered b col started h = elim (Bool-cases (column_for b started == col)) [
  | inl e ↦ inl (ground arith)
  | inr n ↦ inr (λ e. absurd (ground arith), h)
]
covered b col paused h = elim (Bool-cases (column_for b paused == col)) [
  | inl e ↦ inl (ground arith)
  | inr n ↦ inr (λ e. absurd (ground arith), h)
]
covered b col finished h = elim (Bool-cases (column_for b finished == col)) [
  | inl e ↦ inl (ground arith)
  | inr n ↦ inr (λ e. absurd (ground arith), h)
]

has_column-without :
    (cs : List Column) (col dest : ColumnId)
    → dest ≢ col
    → is_some (find (λ (c : Column). c.id == dest) cs) ≡ true
    → is_some (find (λ (c : Column). c.id == dest) (without col cs)) ≡ true
has_column-without [] col dest n h = h
has_column-without (c ∷ cs) col dest n h = ground (arith, has_column-without cs col dest n)

not_column-without :
    (cs : List Column) (col : ColumnId)
    → is_some (find (λ (c : Column). c.id == col) (without col cs)) ≡ false
not_column-without [] col = refl
not_column-without (c ∷ cs) col = ground (arith, not_column-without cs col)

columns-set_roles :
    (b : Board) (rs : List (ColumnRole × ColumnId)) → (set_roles b rs).columns ≡ b.columns
columns-set_roles b [] = refl
columns-set_roles b ((started, c) ∷ rs) = columns-set_roles (set_role b (started, c)) rs
columns-set_roles b ((paused, c) ∷ rs) = columns-set_roles (set_role b (paused, c)) rs
columns-set_roles b ((finished, c) ∷ rs) = columns-set_roles (set_role b (finished, c)) rs

has_column-remove_column :
    (b : Board) (plan : ColumnRemoval) (dest : ColumnId)
    → Stays b plan.removed dest
    → has_column (remove_column b plan) dest ≡ true
unfolding has_column remove_column
has_column-remove_column b plan dest (n, h) =
    rw (columns-set_roles b plan.reassign_roles)
      (has_column-without b.columns plan.removed dest n h)

removed-remove_column :
    (b : Board) (plan : ColumnRemoval) → has_column (remove_column b plan) plan.removed ≡ false
unfolding has_column remove_column
removed-remove_column b plan =
    rw (columns-set_roles b plan.reassign_roles) (not_column-without b.columns plan.removed)

pub validate_roles_iff :
    (b : Board)
    → (validate_roles b all_roles ≡ ok tt) ↔ (
        (has_column b b.started_col ≡ true)
        × (has_column b b.paused_col ≡ true)
        × (has_column b b.finished_col ≡ true))
unfolding validate_roles
validate_roles_iff b = (λ h. ground arith, λ h. ground arith)

column_for-remove_column :
    (b : Board) (plan : ColumnRemoval) (r : ColumnRole)
    → column_for (remove_column b plan) r ≡ column_for (set_roles b plan.reassign_roles) r
unfolding remove_column
column_for-remove_column b plan started = refl
column_for-remove_column b plan paused = refl
column_for-remove_column b plan finished = refl

-- Each role of the board that is left is a column of it.
role-remove_column :
    (b : Board) (col : ColumnId) (has_tasks : Bool) (dest : Option ColumnId)
    (reps : List (ColumnRole × ColumnId)) (plan : ColumnRemoval) (r : ColumnRole)
    → plan_column_removal b col has_tasks dest reps ≡ ok plan
    → has_column b (column_for b r) ≡ true
    → has_column (remove_column b plan) (column_for (remove_column b plan) r) ≡ true
role-remove_column b col has_tasks dest reps plan r h v =
    let (l, e, _, _, _, _) = accepted b col has_tasks dest reps plan h in
    let s =
      set_roles-Stays b b col reps (roles_of b col) plan.reassign_roles r l (covered b col r v) in
    has_column-remove_column b plan (column_for (remove_column b plan) r) (
      subst (λ c. Stays b c (column_for (remove_column b plan) r)) (sym e)
        (subst (λ t. Stays b col t) (sym (column_for-remove_column b plan r)) s))

-- When a removal is accepted on a board whose three roles are columns of it, the board that is left
-- has its three roles on its columns, and the removed column is gone.
pub remove_column-plan_column_removal :
    (b : Board) (col : ColumnId) (has_tasks : Bool) (dest : Option ColumnId)
    (replacements : List (ColumnRole × ColumnId)) (plan : ColumnRemoval)
    → validate_roles b all_roles ≡ ok tt
    → plan_column_removal b col has_tasks dest replacements ≡ ok plan
    → (validate_roles (remove_column b plan) all_roles ≡ ok tt)
      × (has_column (remove_column b plan) col ≡ false)
remove_column-plan_column_removal b col has_tasks dest replacements plan v h =
    let (_, e, _, _, _, _) = accepted b col has_tasks dest replacements plan h in
    let (s, p, f) = (validate_roles_iff b).0 v in
    (
      (validate_roles_iff (remove_column b plan)).1 (
        role-remove_column b col has_tasks dest replacements plan started h s,
        role-remove_column b col has_tasks dest replacements plan paused h p,
        role-remove_column b col has_tasks dest replacements plan finished h f,
      ),
      subst (λ c. has_column (remove_column b plan) c ≡ false) e (removed-remove_column b plan),
    )

check_move-some :
    (b : Board) (col d : ColumnId)
    → check_move b col (some d) ≡ ok tt
    → check_destination b col d ≡ ok tt
unfolding check_move
check_move-some b col d h = h

-- When a removal is accepted for a column that has tasks, the plan names a column for them that is
-- another one and is still on the board that is left.
pub move_tasks_to-plan_column_removal :
    (b : Board) (col : ColumnId) (dest : Option ColumnId)
    (replacements : List (ColumnRole × ColumnId)) (plan : ColumnRemoval)
    → plan_column_removal b col true dest replacements ≡ ok plan
    → (d : ColumnId) × (plan.move_tasks_to ≡ some d)
      × (d ≢ col)
      × (has_column (remove_column b plan) d ≡ true)
move_tasks_to-plan_column_removal b col none replacements plan h =
    let (_, _, _, _, _, n) = accepted b col true none replacements plan h in absurd (cc)
move_tasks_to-plan_column_removal b col (some d) replacements plan h =
    let (_, e, _, c, m, _) = accepted b col true (some d) replacements plan h in
    let s = check_destination-Stays b col d (check_move-some b col d c) in
    (d, m, s.0, has_column-remove_column b plan d (subst (λ t. Stays b t d) (sym e) s))
