-- ===== src/Board.antt =====
-- crates/taskologic-core/src/board.rs: boards and columns.
-- `str::to_lowercase`, which reads Unicode tables, is a parameter of what compares names.
pub mod Wellformed
pub mod Removal
pub mod Access
pub mod Tests
use taskologic.Prelude.{
  ℕ, ◌+◌, ◌*◌, ◌≡◌, Option, none, some, Bool, true, false, not, ◌&&◌, ◌||◌, List, [], ◌∷◌, map,
  ◌++◌,
}
use taskologic.Prelude.Tests.{ltb, leb, ◌==◌, if◌then◌else◌}
use taskologic.Prelude.Lists.{length, any, find, keep, contains}
use taskologic.Prelude.Int.{ℤ, pos, ltb_ℤ}
use taskologic.Prelude.Result.{Check, Result, ok, err, ◌>>◌}
use taskologic.Prelude.Text.{Text, trim, text_eq}
use taskologic.Ids.{Uid, BoardId, ColumnId}
use taskologic.Ids.ShortId.{ShortId}
use taskologic.Time.{DateTime}

abbrev pub max_name_chars : ℕ
max_name_chars = 120

pub record Column : Type 0 where
  pub id : ColumnId
  pub board_id : BoardId
  pub name : Text
  pub position : ℤ
  pub sort_by_due : Bool

pub data ColumnRole : Type 0 where
  started paused finished : ColumnRole

abbrev pub all_roles : List ColumnRole
all_roles = started ∷ paused ∷ finished ∷ []

abbrev pub role_eq : ColumnRole → ColumnRole → Bool
role_eq started started = true
role_eq paused paused = true
role_eq finished finished = true
role_eq _ _ = false

-- `CardFields` of prefs.rs
pub record CardFields : Type 0 where
  pub start_date : Bool
  pub due_date : Bool
  pub assignees : Bool
  pub dependencies : Bool
  pub description : Bool
  pub short_id : Bool
  pub estimate : Bool

pub record Board : Type 0 where
  pub id : BoardId
  pub short_id : ShortId
  pub name : Text
  pub description : Text
  pub owner_uid : Uid
  pub is_locked : Bool
  pub is_private : Bool
  pub archive_after_secs : ℤ
  pub purge_deleted_after_secs : ℤ
  pub card_fields : CardFields
  pub started_col : ColumnId
  pub paused_col : ColumnId
  pub finished_col : ColumnId
  pub created_at : DateTime
  pub columns : List Column
  pub members : List Uid

pub data BoardError : Type 0 where
  empty_name name_too_long no_columns empty_column_name : BoardError
  duplicate_column_name : Text → BoardError
  designated_column_missing : ColumnRole → BoardError
  negative_archive_delay negative_purge_delay : BoardError
  column_not_on_board : ColumnId → BoardError
  tasks_need_destination : BoardError
  designated_needs_replacement : ColumnRole → BoardError
  destination_is_removed_column owner_is_always_member : BoardError

abbrev pub is_empty : {A : Type 0} → List A → Bool
is_empty [] = true
is_empty (x ∷ xs) = false

unfoldable pub validate_name : Text → Check BoardError
validate_name name =
    let trimmed = trim name in
    if is_empty trimmed
    then err empty_name
    else if ltb max_name_chars (length trimmed)
    then err name_too_long
    else ok tt

-- The loop over the names; a vector's last element is the head of `seen`.
unfoldable pub names_loop : (Text → Text) → List Text → List Text → Check BoardError
names_loop to_lowercase seen [] = ok tt
names_loop to_lowercase seen (n ∷ names) =
    let key = to_lowercase (trim n) in
    let rest = names_loop to_lowercase (key ∷ seen) names in
    if is_empty (trim n)
    then err empty_column_name
    else if any (λ s. text_eq s key) seen
    then err (duplicate_column_name (trim n))
    else rest

unfoldable pub validate_column_names : (Text → Text) → List Text → Check BoardError
unfolding names_loop
validate_column_names to_lowercase names =
    if is_empty names then err no_columns else names_loop to_lowercase [] names

abbrev pub is_member : Board → Uid → Bool
is_member b uid = uid == b.owner_uid || not b.is_private || contains b.members uid

abbrev pub column : Board → ColumnId → Option Column
column b id = find (λ (c : Column). c.id == id) b.columns

-- `is_some`
abbrev pub is_some : {A : Type 0} → Option A → Bool
is_some none = false
is_some (some a) = true

unfoldable pub has_column : Board → ColumnId → Bool
has_column b id = is_some (column b id)

-- `min_by_key`: the first of the least.
unfoldable pub leftmost : Column → List Column → Column
leftmost c [] = c
leftmost c (d ∷ cs) =
    let earlier = leftmost d cs in
    let same = leftmost c cs in if ltb_ℤ d.position c.position then earlier else same

unfoldable pub first_of : List Column → Option Column
unfolding leftmost
first_of [] = none
first_of (c ∷ cs) = some (leftmost c cs)

abbrev pub first_column : Board → Option Column
first_column b = first_of b.columns

abbrev pub column_for : Board → ColumnRole → ColumnId
column_for b started = b.started_col
column_for b paused = b.paused_col
column_for b finished = b.finished_col

abbrev pub roles_of : Board → ColumnId → List ColumnRole
roles_of b col = keep (λ r. column_for b r == col) all_roles

-- The loop over the roles.
unfoldable pub validate_roles : Board → List ColumnRole → Check BoardError
validate_roles b [] = ok tt
validate_roles b (r ∷ rs) =
    let rest = validate_roles b rs in
    if not (has_column b (column_for b r)) then err (designated_column_missing r) else rest

abbrev pub validate_rest : Board → Check BoardError
validate_rest b =
    if ltb_ℤ b.archive_after_secs (pos 0)
    then err negative_archive_delay
    else if ltb_ℤ b.purge_deleted_after_secs (pos 0)
    then err negative_purge_delay
    else if not (contains b.members b.owner_uid)
    then err owner_is_always_member
    else ok tt

abbrev pub column_names : Board → List Text
column_names b = map (λ (c : Column). c.name) b.columns

unfoldable pub validate : (Text → Text) → Board → Check BoardError
unfolding validate_name validate_column_names validate_roles has_column
validate to_lowercase b =
    validate_name b.name
    >> (validate_column_names to_lowercase (column_names b)
        >> (validate_roles b all_roles >> validate_rest b))

-- `sort_unstable` on numbers, as insertion, and `dedup`.
unfoldable pub insert : ℕ → List ℕ → List ℕ
insert x [] = x ∷ []
insert x (y ∷ ys) = let rest = insert x ys in if leb x y then x ∷ y ∷ ys else y ∷ rest

unfoldable pub sort_unstable : List ℕ → List ℕ
unfolding insert
sort_unstable [] = []
sort_unstable (x ∷ xs) = insert x (sort_unstable xs)

unfoldable pub dedup_after : ℕ → List ℕ → List ℕ
dedup_after x [] = []
dedup_after x (y ∷ ys) =
    let skip = dedup_after x ys in let next = dedup_after y ys in if x == y then skip else y ∷ next

unfoldable pub dedup : List ℕ → List ℕ
unfolding dedup_after
dedup [] = []
dedup (x ∷ xs) = x ∷ dedup_after x xs

unfoldable pub would_lose_access : Board → List Uid → List Uid
unfolding sort_unstable dedup
would_lose_access b assignees_on_board =
    let outsiders =
      keep (λ uid. not (uid == b.owner_uid) && not (contains b.members uid)) assignees_on_board in
    dedup (sort_unstable outsiders)

pub record ColumnRemoval : Type 0 where
  pub removed : ColumnId
  pub move_tasks_to : Option ColumnId
  pub reassign_roles : List (ColumnRole × ColumnId)

-- A destination for tasks or a role.
unfoldable pub check_destination : Board → ColumnId → ColumnId → Check BoardError
unfolding has_column
check_destination b col dest =
    if dest == col
    then err destination_is_removed_column
    else if not (has_column b dest)
    then err (column_not_on_board dest)
    else ok tt

abbrev pub replacement_for :
    List (ColumnRole × ColumnId) → ColumnRole → Option (ColumnRole × ColumnId)
replacement_for replacements role =
    find (λ (p : ColumnRole × ColumnId). role_eq p.0 role) replacements

-- The loop over the roles of the column: what is pushed to `reassign_roles`.
unfoldable pub reassign_loop :
    Board
    → ColumnId
    → List (ColumnRole × ColumnId)
    → List ColumnRole
    → Result (List (ColumnRole × ColumnId)) BoardError
unfolding check_destination
reassign_loop b col replacements [] = ok []
reassign_loop b col replacements (role ∷ roles) =
    let rest = reassign_loop b col replacements roles in
    elim (replacement_for replacements role) [
      | none ↦ err (designated_needs_replacement role)
      | some (r, replacement) ↦ elim (check_destination b col replacement) [
        | err e ↦ err e
        | ok _ ↦ elim rest [ err e ↦ err e | ok more ↦ ok ((role, replacement) ∷ more) ]
      ]
    ]

-- `if let Some(dest) = move_tasks_to { ... }`
unfoldable pub check_move : Board → ColumnId → Option ColumnId → Check BoardError
unfolding check_destination
check_move b col none = ok tt
check_move b col (some dest) = check_destination b col dest

unfoldable pub plan_column_removal :
    Board
    → ColumnId
    → Bool
    → Option ColumnId
    → List (ColumnRole × ColumnId)
    → Result ColumnRemoval BoardError
unfolding has_column check_move reassign_loop
plan_column_removal b col has_tasks move_tasks_to replacements =
    if not (has_column b col)
    then err (column_not_on_board col)
    else if leb (length b.columns) 1
    then err no_columns
    else if has_tasks && not (is_some move_tasks_to)
    then err tasks_need_destination
    else elim (check_move b col move_tasks_to) [
      | err e ↦ err e
      | ok _ ↦ elim (reassign_loop b col replacements (roles_of b col)) [
        | err e ↦ err e
        | ok reassign ↦ ok (record {
          removed = col;
          move_tasks_to = if has_tasks then move_tasks_to else none;
          reassign_roles = reassign;
        })
      ]
    ]

-- taskologicd's db/repo.rs applies the plan to the board's row, role after role, and drops the column. The
-- update of the tasks' rows that comes before it is not modelled.
abbrev pub set_role : Board → ColumnRole × ColumnId → Board
set_role b (started, col) = record b { started_col = col }
set_role b (paused, col) = record b { paused_col = col }
set_role b (finished, col) = record b { finished_col = col }

abbrev pub set_roles : Board → List (ColumnRole × ColumnId) → Board
set_roles b [] = b
set_roles b (p ∷ ps) = set_roles (set_role b p) ps

abbrev pub without : ColumnId → List Column → List Column
without col cs = keep (λ (c : Column). not (c.id == col)) cs

unfoldable pub remove_column : Board → ColumnRemoval → Board
remove_column b plan =
    let moved = set_roles b plan.reassign_roles in
    record moved { columns = without plan.removed moved.columns }
