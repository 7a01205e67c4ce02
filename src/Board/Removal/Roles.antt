-- ===== src/Board/Removal/Roles.antt =====
-- The roles that a plan reassigns: where they are once it is applied.
use taskologic.Prelude.{
  ◌≡◌, ◌≢◌, ◌⊎◌, inl, inr, refl, sym, subst, some, Bool, true, false, List, [], ◌∷◌, arith,
}
use taskologic.Prelude.Tests.{if◌then◌else◌, Bool-cases, Option-cases}
use taskologic.Prelude.Result.{Result, Check, ok, err}
use taskologic.Ids.{ColumnId}
use taskologic.Board.{
  Board, BoardError, ColumnRole, started, paused, finished, has_column, column_for, set_role,
  set_roles, role_eq, check_destination, reassign_loop, replacement_for,
}

-- A column that stays on the board.
abbrev pub Stays : Board → ColumnId → ColumnId → Type 0
Stays b col dest = (dest ≢ col) × (has_column b dest ≡ true)

pub check_destination-Stays :
    (b : Board) (col dest : ColumnId) → check_destination b col dest ≡ ok tt → Stays b col dest
unfolding check_destination
check_destination-Stays b col dest h = (ground arith, ground arith)

abbrev pub has_role : List ColumnRole → ColumnRole → Bool
has_role [] r = false
has_role (q ∷ qs) r = if role_eq q r then true else has_role qs r

column_for-set_role :
    (b : Board) (q r : ColumnRole) (dest : ColumnId)
    → column_for (set_role b (q, dest)) r ≡ (if role_eq q r then dest else column_for b r)
column_for-set_role b started started dest = refl
column_for-set_role b started paused dest = refl
column_for-set_role b started finished dest = refl
column_for-set_role b paused started dest = refl
column_for-set_role b paused paused dest = refl
column_for-set_role b paused finished dest = refl
column_for-set_role b finished started dest = refl
column_for-set_role b finished paused dest = refl
column_for-set_role b finished finished dest = refl

-- One round of the loop that succeeds.
reassign_loop-cons :
    (b : Board) (col : ColumnId) (reps : List (ColumnRole × ColumnId)) (q : ColumnRole)
    (qs : List ColumnRole) (rs : List (ColumnRole × ColumnId))
    → reassign_loop b col reps (q ∷ qs) ≡ ok rs
    → (dest : ColumnId) × (more : List (ColumnRole × ColumnId)) × (rs ≡ (q, dest) ∷ more)
      × (check_destination b col dest ≡ ok tt)
      × (reassign_loop b col reps qs ≡ ok more)
unfolding reassign_loop
reassign_loop-cons b col reps q qs rs h = elim (Option-cases (replacement_for reps q)) [
  | inl e ↦ absurd (ground arith)
  | inr ((r, dest), e) ↦
      split (check_destination b col dest) refl (reassign_loop b col reps qs) refl e
]
  where
    split :
        {r : ColumnRole} {dest : ColumnId} (x : Check BoardError)
        → check_destination b col dest ≡ x
        → (y : Result (List (ColumnRole × ColumnId)) BoardError) → reassign_loop b col reps qs ≡ y
        → replacement_for reps q ≡ some (r, dest)
        → (dest : ColumnId) × (more : List (ColumnRole × ColumnId)) × (rs ≡ (q, dest) ∷ more)
          × (check_destination b col dest ≡ ok tt)
          × (reassign_loop b col reps qs ≡ ok more)
    split {r} {dest} (err x) ex y ey e = absurd (ground arith)
    split {r} {dest} (ok tt) ex (err y) ey e = absurd (ground arith)
    split {r} {dest} (ok tt) ex (ok more) ey e = (dest, more, ground arith, ex, ey)

reassign_loop-nil :
    (b : Board) (col : ColumnId) (reps rs : List (ColumnRole × ColumnId))
    → reassign_loop b col reps [] ≡ ok rs
    → rs ≡ []
unfolding reassign_loop
reassign_loop-nil b col reps rs h = ground arith

set_role-Stays :
    (b cur : Board) (col : ColumnId) (q r : ColumnRole) (dest : ColumnId) (qs : List ColumnRole)
    → Stays b col dest
    → has_role (q ∷ qs) r ≡ true ⊎ Stays b col (column_for cur r)
    → has_role qs r ≡ true ⊎ Stays b col (column_for (set_role cur (q, dest)) r)
set_role-Stays b cur col q r dest qs d s = elim (Bool-cases (role_eq q r)) [
  | inl same ↦ inr (subst (λ t. Stays b col t) (sym (column_for-set_role cur q r dest)) (rw same d))
  | inr other ↦ elim s [
    | inl m ↦ inl (ground arith)
    | inr w ↦ inr (subst (λ t. Stays b col t) (sym (column_for-set_role cur q r dest)) (rw other w))
  ]
]

-- Every role that the loop covers, or that was safe before, is safe once its plan is applied.
pub set_roles-Stays :
    (b cur : Board) (col : ColumnId) (reps : List (ColumnRole × ColumnId)) (qs : List ColumnRole)
    (rs : List (ColumnRole × ColumnId)) (r : ColumnRole)
    → reassign_loop b col reps qs ≡ ok rs
    → has_role qs r ≡ true ⊎ Stays b col (column_for cur r)
    → Stays b col (column_for (set_roles cur rs) r)
set_roles-Stays b cur col reps [] rs r h s =
    subst (λ l. Stays b col (column_for (set_roles cur l) r))
      (sym (reassign_loop-nil b col reps rs h)) (elim s [ inl n ↦ absurd (cc) | inr w ↦ w ])
set_roles-Stays b cur col reps (q ∷ qs) rs r h s =
    let (dest, more, e, c, m) = reassign_loop-cons b col reps q qs rs h in
    subst (λ l. Stays b col (column_for (set_roles cur l) r)) (sym e)
      (set_roles-Stays b (set_role cur (q, dest)) col reps qs more r m
        (set_role-Stays b cur col q r dest qs (check_destination-Stays b col dest c) s))
