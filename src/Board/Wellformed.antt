-- ===== src/Board/Wellformed.antt =====
-- `validate` decides a description of a well formed board.
use taskologic.Prelude.{
  ◌≤◌, ◌≡◌, ◌≢◌, ◌↔◌, inl, inr, refl, sym, subst, true, false, List, [], ◌∷◌, map, arith,
}
use taskologic.Prelude.Tests.{Bool-cases}
use taskologic.Prelude.Lists.{length, any, All, In, here, there, contains}
use taskologic.Prelude.Int.{pos, ◌≤ℤ◌}
use taskologic.Prelude.Result.{ok, ◌>>◌, >>_iff}
use taskologic.Prelude.Text.{Text, trim, text_eq, text_eq_refl, text_eq_sound}
use taskologic.Board.{
  Board, max_name_chars, is_empty, has_column, validate_name, names_loop, validate_column_names,
  column_names, validate_roles, validate_rest, validate, all_roles,
}
use taskologic.Board.Removal.{validate_roles_iff}

-- No text stands twice in the list.
abbrev pub Distinct : List Text → Type 0
Distinct [] = Unit
Distinct (k ∷ ks) = (In k ks → ⊥) × Distinct ks

-- What two column names must not share.
abbrev pub keys : (Text → Text) → List Text → List Text
keys to_lowercase names = map (λ n. to_lowercase (trim n)) names

pub record IsWellformed (to_lowercase : Text → Text) (b : Board) : Type 0 where
  pub named : (trim b.name ≢ []) × (length (trim b.name) ≤ max_name_chars)
  pub some_column : column_names b ≢ []
  pub column_named : All (λ n. trim n ≢ []) (column_names b)
  pub column_keys : Distinct (keys to_lowercase (column_names b))
  pub roles :
      (has_column b b.started_col ≡ true)
      × (has_column b b.paused_col ≡ true)
      × (has_column b b.finished_col ≡ true)
  pub delays : (pos 0 ≤ℤ b.archive_after_secs) × (pos 0 ≤ℤ b.purge_deleted_after_secs)
  pub owner : contains b.members b.owner_uid ≡ true

is_empty_iff : (s : Text) → (is_empty s ≡ false) ↔ (s ≢ [])
is_empty_iff [] = (λ h. absurd (cc), λ h. absurd (h refl))
is_empty_iff (c ∷ s) = (λ h e. cc, λ h. refl)

validate_name_iff :
    (s : Text) → (validate_name s ≡ ok tt) ↔ ((trim s ≢ []) × (length (trim s) ≤ max_name_chars))
unfolding validate_name
validate_name_iff s = ground (arith, is_empty_iff (trim s))

abbrev New : List Text → List Text → Type 0
New seen ks = (k : Text) → In k ks → any (λ s. text_eq s k) seen ≡ false

New-cons :
    (key : Text) (seen ks : List Text) → New (key ∷ seen) ks ↔ ((In key ks → ⊥) × New seen ks)
New-cons key seen ks = (
  λ h. (λ m. ground (arith, h key m, text_eq_refl key), λ k m. ground (arith, h k m)),
  λ (n, h) k m. elim (Bool-cases (text_eq key k)) [
    | inl e ↦ absurd (n (subst (λ t. In t ks) (sym (text_eq_sound key k e)) m))
    | inr e ↦ ground (arith, h k m)
  ],
)

New-here :
    (key : Text) (seen ks : List Text)
    → New seen (key ∷ ks) ↔ ((any (λ s. text_eq s key) seen ≡ false) × New seen ks)
New-here key seen ks = (λ h. (h key (here refl), λ k m. h k (there m)), λ (a, h) k m. split a h m)
  where
    split :
        {k : Text}
        → any (λ s. text_eq s key) seen ≡ false
        → New seen ks
        → In k (key ∷ ks)
        → any (λ s. text_eq s k) seen ≡ false
    split a h (here e) = subst (λ t. any (λ s. text_eq s t) seen ≡ false) (sym e) a
    split {k} a h (there m) = h k m

-- One round of the loop.
names_loop-cons :
    (to_lowercase : Text → Text) (seen names : List Text) (n : Text)
    → (names_loop to_lowercase seen (n ∷ names) ≡ ok tt) ↔ (
        (trim n ≢ [])
        × (any (λ s. text_eq s (to_lowercase (trim n))) seen ≡ false)
        × (names_loop to_lowercase (to_lowercase (trim n) ∷ seen) names ≡ ok tt))
unfolding names_loop
names_loop-cons to_lowercase seen names n = ground (arith, is_empty_iff (trim n))

names_loop_iff :
    (to_lowercase : Text → Text) (seen names : List Text)
    → (names_loop to_lowercase seen names ≡ ok tt) ↔ (
        All (λ n. trim n ≢ []) names
        × Distinct (keys to_lowercase names)
        × New seen (keys to_lowercase names))
names_loop_iff to_lowercase seen [] =
    (λ h. (tt, tt, λ k m. absurd (nothing m)), λ h. (unfold names_loop in refl))
  where
    nothing : {k : Text} → In k [] → ⊥
    nothing m = elim m [ ]
names_loop_iff to_lowercase seen (n ∷ names) =
    let key = to_lowercase (trim n) in
    let ks = keys to_lowercase names in
    let round = names_loop-cons to_lowercase seen names n in
    let rest = names_loop_iff to_lowercase (key ∷ seen) names in
    (
      λ h.
          let (a, b, c) = round.0 h in
          let (x, y, z) = rest.0 c in
          let (u, v) = (New-cons key seen ks).0 z in
          ((a, x), (u, y), (New-here key seen ks).1 (b, v)),
      λ ((a, x), (u, y), z).
          let (b, v) = (New-here key seen ks).0 z in
          round.1 (a, b, rest.1 (x, y, (New-cons key seen ks).1 (u, v))),
    )

validate_column_names_iff :
    (to_lowercase : Text → Text) (names : List Text)
    → (validate_column_names to_lowercase names ≡ ok tt)
      ↔ ((names ≢ []) × All (λ n. trim n ≢ []) names × Distinct (keys to_lowercase names))
unfolding validate_column_names
validate_column_names_iff to_lowercase [] = (λ h. absurd (cc), λ h. absurd (h.0 refl))
validate_column_names_iff to_lowercase (n ∷ names) =
    let loop = names_loop_iff to_lowercase [] (n ∷ names) in
    (λ h. let (a, d, _) = loop.0 h in (λ e. cc, a, d), λ (_, a, d). loop.1 (a, d, λ k m. refl))

validate_rest_iff :
    (b : Board)
    → (validate_rest b ≡ ok tt) ↔ (
        (pos 0 ≤ℤ b.archive_after_secs)
        × (pos 0 ≤ℤ b.purge_deleted_after_secs)
        × (contains b.members b.owner_uid ≡ true))
validate_rest_iff b = ground arith

-- A board is accepted by `validate` exactly when it is well formed: its name is not blank and at most
-- 120 characters, it has columns, whose names are not blank and differ in more than case and
-- surrounding blanks, its three roles are columns of it, its delays are not negative and its owner is
-- a member.
pub validate_iff :
    (to_lowercase : Text → Text) (b : Board)
    → (validate to_lowercase b ≡ ok tt) ↔ IsWellformed to_lowercase b
unfolding validate
validate_iff to_lowercase b =
    let names = validate_column_names_iff to_lowercase (column_names b) in
    let roles = validate_roles b all_roles in
    let rest = validate_rest b in
    let first =
      >>_iff (validate_name b.name)
        (validate_column_names to_lowercase (column_names b) >> (roles >> rest)) in
    let second = >>_iff (validate_column_names to_lowercase (column_names b)) (roles >> rest) in
    let third = >>_iff roles rest in
    (
      λ h.
          let (n, h1) = first.0 h in
          let (c, h2) = second.0 h1 in
          let (r, t) = third.0 h2 in
          let (s, a, d) = names.0 c in
          let (x, y, o) = (validate_rest_iff b).0 t in
          record {
            named = (validate_name_iff b.name).0 n;
            some_column = s;
            column_named = a;
            column_keys = d;
            roles = (validate_roles_iff b).0 r;
            delays = (x, y);
            owner = o;
          },
      λ w. first.1 (
        (validate_name_iff b.name).1 w.named,
        second.1 (
          names.1 (w.some_column, w.column_named, w.column_keys),
          third.1 (
            (validate_roles_iff b).1 w.roles,
            (validate_rest_iff b).1 (w.delays.0, w.delays.1, w.owner),
          ),
        ),
      ),
    )
