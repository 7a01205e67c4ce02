-- ===== src/Board/Access.antt =====
-- Who loses access when a board goes private.
use taskologic.Prelude.{
  ℕ, ◌≤◌, ◌<◌, ◌≡◌, refl, ap, ◌∙◌, Bool, true, not, ◌&&◌, List, [], ◌∷◌, arith, inl, inr,
}
use taskologic.Prelude.Tests.{◌==◌, leb, Bool-cases}
use taskologic.Prelude.Lists.{keep, contains}
use taskologic.Ids.{Uid}
use taskologic.Board.{
  Board, is_member, insert, sort_unstable, dedup_after, dedup, would_lose_access,
}

-- Each number is greater than the one before it, and `x` than all of them.
abbrev pub Above : ℕ → List ℕ → Type 0
Above x [] = Unit
Above x (y ∷ ys) = (x < y) × Above y ys

abbrev pub Ascending : List ℕ → Type 0
Ascending [] = Unit
Ascending (x ∷ xs) = Above x xs

abbrev AtLeast : ℕ → List ℕ → Type 0
AtLeast x [] = Unit
AtLeast x (y ∷ ys) = (x ≤ y) × AtLeast y ys

insert-AtLeast : (lo x : ℕ) (ys : List ℕ) → lo ≤ x → AtLeast lo ys → AtLeast lo (insert x ys)
unfolding insert
insert-AtLeast lo x [] h s = (h, tt)
insert-AtLeast lo x (y ∷ ys) h (a, s) = elim (Bool-cases (leb x y)) [
  | inl e ↦ rw e (h, (ground arith, s))
  | inr e ↦ rw e (a, insert-AtLeast y x ys (ground arith) s)
]

sort_unstable-AtLeast : (xs : List ℕ) → AtLeast 0 (sort_unstable xs)
unfolding sort_unstable
sort_unstable-AtLeast [] = tt
sort_unstable-AtLeast (x ∷ xs) =
    insert-AtLeast 0 x (sort_unstable xs) (omega arith) (sort_unstable-AtLeast xs)

dedup_after-Above : (x : ℕ) (ys : List ℕ) → AtLeast x ys → Above x (dedup_after x ys)
unfolding dedup_after
dedup_after-Above x [] s = tt
dedup_after-Above x (y ∷ ys) (a, s) = elim (Bool-cases (x == y)) [
  | inl e ↦ rw e (dedup_after-Above x ys (relax x y ys (ground arith) s))
  | inr e ↦ rw e (ground arith, dedup_after-Above y ys s)
]
  where
    relax : (x y : ℕ) (ys : List ℕ) → x ≤ y → AtLeast y ys → AtLeast x ys
    relax x y [] h s = tt
    relax x y (z ∷ ys) h (a, s) = (omega arith, s)

dedup-Ascending : (xs : List ℕ) → AtLeast 0 xs → Ascending (dedup xs)
unfolding dedup
dedup-Ascending [] s = tt
dedup-Ascending (x ∷ xs) (a, s) = dedup_after-Above x xs s

contains-insert : (x u : ℕ) (ys : List ℕ) → contains (insert x ys) u ≡ contains (x ∷ ys) u
unfolding insert
contains-insert x u [] = refl
contains-insert x u (y ∷ ys) = ground (arith, contains-insert x u ys)

contains-sort_unstable : (xs : List ℕ) (u : ℕ) → contains (sort_unstable xs) u ≡ contains xs u
unfolding sort_unstable
contains-sort_unstable [] u = refl
contains-sort_unstable (x ∷ xs) u =
    ground (arith, contains-insert x u (sort_unstable xs), contains-sort_unstable xs u)

contains-dedup_after :
    (x u : ℕ) (ys : List ℕ) → contains (x ∷ dedup_after x ys) u ≡ contains (x ∷ ys) u
unfolding dedup_after
contains-dedup_after x u [] = refl
contains-dedup_after x u (y ∷ ys) =
    ground (arith, contains-dedup_after x u ys, contains-dedup_after y u ys)

contains-dedup : (xs : List ℕ) (u : ℕ) → contains (dedup xs) u ≡ contains xs u
unfolding dedup
contains-dedup [] u = refl
contains-dedup (x ∷ xs) u = contains-dedup_after x u xs

contains-keep :
    (p : ℕ → Bool) (xs : List ℕ) (u : ℕ) → contains (keep p xs) u ≡ (contains xs u && p u)
contains-keep p [] u = refl
contains-keep p (x ∷ xs) u = elim (Bool-cases (x == u)) [
  | inl e ↦ ground (arith, contains-keep p xs u, ap p (same e))
  | inr e ↦ ground (arith, contains-keep p xs u)
]
  where
    same : {x u : ℕ} → (x == u) ≡ true → x ≡ u
    same h = ground arith

-- Of the people who hold a task, `would_lose_access` names exactly those who could no longer see the
-- board if it were private, in ascending order and each once.
pub would_lose_access_lem :
    (b : Board) (assignees : List Uid)
    → ((u : Uid)
        → contains (would_lose_access b assignees) u
          ≡ (contains assignees u && not (is_member (record b { is_private = true }) u)))
      × Ascending (would_lose_access b assignees)
unfolding would_lose_access
would_lose_access_lem b assignees =
    let out : Uid → Bool = λ uid. not (uid == b.owner_uid) && not (contains b.members uid) in
    let left = keep out assignees in
    (
      λ u.
          contains-dedup (sort_unstable left) u
          ∙ contains-sort_unstable left u
          ∙ contains-keep out assignees u
          ∙ ground arith,
      dedup-Ascending (sort_unstable left) (sort_unstable-AtLeast left),
    )
