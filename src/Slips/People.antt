-- ===== src/Slips/People.antt =====
-- print.rs: whom a rule prints for.
use taskologic.Prelude.{
  ℕ, ◌≤◌, ◌<◌, ◌≡◌, ◌⊎◌, ◌↔◌, refl, sym, ap, ◌∙◌, subst, inl, inr, Bool, true, false, List, [], ◌∷◌,
  arith,
}
use taskologic.Prelude.Tests.{◌==◌, leb, Bool-cases}
use taskologic.Prelude.Lists.{keep, In, here, there}
use taskologic.Ids.{Uid}
use taskologic.Board.{Board, is_member}
use taskologic.Print.{PrintRule, Recipients, assignees, creator, users}
use taskologic.Task.{Task}
use taskologic.Slips.Plans.{insert, sort, dedup, named, recipients_of}

In-cons : {u v : ℕ} {vs : List ℕ} → In u (v ∷ vs) → (u ≡ v) ⊎ In u vs
In-cons (here e) = inl e
In-cons (there m) = inr m

cons-In : {u v : ℕ} {vs : List ℕ} → (u ≡ v) ⊎ In u vs → In u (v ∷ vs)
cons-In (inl e) = here e
cons-In (inr m) = there m

module _ (w : Uid) where
  In-keep : (p : ℕ → Bool) (us : List Uid) → In w (keep p us) ↔ (In w us × (p w ≡ true))
  In-keep p [] = (λ m. elim m [ ], λ (m, _). elim m [ ])
  In-keep p (u ∷ us) =
      let (to, from) = In-keep p us in
      elim (Bool-cases (p u)) [
        | inl y ↦ rw y (
          λ m. elim (In-cons m) [
            | inl e ↦ (here e, ap p e ∙ y)
            | inr k ↦ let (a, b) = to k in (there a, b)
          ],
          λ (m, b). elim (In-cons m) [ inl e ↦ here e | inr k ↦ there (from (k, b)) ],
        )
        | inr n ↦ rw n (
          λ m. let (a, b) = to m in (there a, b),
          λ (m, b). elim (In-cons m) [
            | inl e ↦ absurd (clash (ap p e ∙ n) b)
            | inr k ↦ from (k, b)
          ],
        )
      ]
    where
      clash : {b : Bool} → b ≡ false → b ≡ true → ⊥
      clash p q = cc

  In-insert : (u : Uid) (vs : List Uid) → In w (insert u vs) ↔ ((w ≡ u) ⊎ In w vs)
  unfolding insert
  In-insert u [] = (In-cons, cons-In)
  In-insert u (v ∷ vs) =
      let (to, from) = In-insert u vs in
      elim (Bool-cases (leb u v)) [
        | inl y ↦ rw (insert, y) (In-cons, cons-In)
        | inr n ↦
            rw (insert, n)
              (
                λ m. elim (In-cons m) [
                  | inl e ↦ inr (here e)
                  | inr k ↦ elim (to k) [ inl e ↦ inl e | inr j ↦ inr (there j) ]
                ],
                λ s. elim s [
                  | inl e ↦ there (from (inl e))
                  | inr k ↦ elim (In-cons k) [ inl e ↦ here e | inr j ↦ there (from (inr j)) ]
                ],
              )
      ]

  In-sort : (us : List Uid) → In w (sort us) ↔ In w us
  unfolding sort
  In-sort [] = (λ m. m, λ m. m)
  In-sort (u ∷ us) =
      let (to, from) = In-sort us in
      let (a, b) = In-insert u (sort us) in
      (
        λ m. elim (a m) [ inl e ↦ here e | inr k ↦ there (to k) ],
        λ m. elim (In-cons m) [ inl e ↦ b (inl e) | inr k ↦ b (inr (from k)) ],
      )

  In-dedup : (us : List Uid) → In w (dedup us) ↔ In w us
  unfolding dedup
  In-dedup [] = (λ m. m, λ m. m)
  In-dedup (u ∷ []) = (λ m. m, λ m. m)
  In-dedup (u ∷ v ∷ us) =
      let (to, from) = In-dedup (v ∷ us) in
      elim (Bool-cases (u == v)) [
        | inl y ↦
            rw (dedup, y)
              (
                λ m. there (to m),
                λ m. elim (In-cons m) [ inl e ↦ from (here (e ∙ ground arith)) | inr k ↦ from k ],
              )
        | inr n ↦
            rw (dedup, n)
              (
                λ m. elim (In-cons m) [ inl e ↦ here e | inr k ↦ there (to k) ],
                λ m. elim (In-cons m) [ inl e ↦ here e | inr k ↦ there (from k) ],
              )
      ]

-- In order, and in order with nobody twice.
abbrev Sorted : List ℕ → Type 0
Sorted [] = Unit
Sorted (u ∷ []) = Unit
Sorted (u ∷ v ∷ us) = (u ≤ v) × Sorted (v ∷ us)

abbrev pub Increasing : List ℕ → Type 0
Increasing [] = Unit
Increasing (u ∷ []) = Unit
Increasing (u ∷ v ∷ us) = (u < v) × Increasing (v ∷ us)

insert-Sorted : (u : ℕ) (vs : List ℕ) → Sorted vs → Sorted (insert u vs)
unfolding insert
insert-Sorted u [] h = tt
insert-Sorted u (v ∷ []) h = ground arith
insert-Sorted u (v ∷ x ∷ vs) (h, hs) = elim (Bool-cases (leb u v)) [
  | inl y ↦ rw (insert, y) (ground arith, (h, hs))
  | inr n ↦ rw (insert, n) (behind u v x vs (ground arith) h (insert-Sorted u (x ∷ vs) hs))
]
  where
    behind :
        (u v x : ℕ) (vs : List ℕ)
        → v ≤ u
        → v ≤ x
        → Sorted (insert u (x ∷ vs))
        → Sorted (v ∷ insert u (x ∷ vs))
    behind u v x vs a b s = elim (Bool-cases (leb u x)) [
      | inl y ↦ rw (insert, y) (a, rw (insert, y) at s)
      | inr n ↦ rw (insert, n) (b, rw (insert, n) at s)
    ]

sort-Sorted : (us : List ℕ) → Sorted (sort us)
unfolding sort
sort-Sorted [] = tt
sort-Sorted (u ∷ us) = insert-Sorted u (sort us) (sort-Sorted us)

dedup-head : (u : ℕ) (us : List ℕ) → (t : List ℕ) × (dedup (u ∷ us) ≡ u ∷ t)
unfolding dedup
dedup-head u [] = ([], refl)
dedup-head u (v ∷ us) =
    let (t, e) = dedup-head v us in
    elim (Bool-cases (u == v)) [
      | inl y ↦ let same : v ≡ u = ground arith in (t, rw (dedup, y) (e ∙ ap (λ x. x ∷ t) same))
      | inr n ↦ (dedup (v ∷ us), rw (dedup, n) refl)
    ]

dedup-Increasing : (us : List ℕ) → Sorted us → Increasing (dedup us)
unfolding dedup
dedup-Increasing [] h = tt
dedup-Increasing (u ∷ []) h = tt
dedup-Increasing (u ∷ v ∷ us) (h, hs) =
    let i = dedup-Increasing (v ∷ us) hs in
    elim (Bool-cases (u == v)) [
      | inl y ↦ rw (dedup, y) i
      | inr n ↦
          let (t, e) = dedup-head v us in
          rw (dedup, n)
            (subst (λ x. Increasing (u ∷ x)) (sym e) (ground arith, subst Increasing e i))
    ]

-- Whom a rule names: for the assignees of a task that has none, the user who made it.
abbrev pub IsNamed : Recipients → Task → Uid → Type 0
IsNamed assignees task u = In u task.assignees ⊎ ((task.assignees ≡ []) × (u ≡ task.created_by))
IsNamed creator task u = u ≡ task.created_by
IsNamed (users uids) task u = In u uids

In-alone : {u v : Uid} → In u (v ∷ []) ↔ (u ≡ v)
In-alone = (λ m. elim (In-cons m) [ inl e ↦ e | inr k ↦ elim k [ ] ], λ e. here e)

In-fallback :
    (us : List Uid) (maker u : Uid)
    → In u (elim us [ [] ↦ maker ∷ [] | v ∷ vs ↦ v ∷ vs ]) ↔ (In u us ⊎ ((us ≡ []) × (u ≡ maker)))
In-fallback [] maker u =
    (λ m. inr (refl, In-alone.0 m), λ s. elim s [ inl m ↦ elim m [ ] | inr (_, e) ↦ here e ])
In-fallback (v ∷ vs) maker u = (λ m. inl m, λ s. elim s [ inl m ↦ m | inr (e, _) ↦ absurd (cc) ])

In-named : (to : Recipients) (task : Task) (u : Uid) → In u (named to task) ↔ IsNamed to task u
unfolding named
In-named assignees task u = In-fallback task.assignees task.created_by u
In-named creator task u = In-alone
In-named (users uids) task u = (λ m. m, λ m. m)

-- A rule prints for exactly the members of the board that it names, where a rule for the assignees
-- names the task's creator if it has none, each once and in the order of their uids.
pub recipients_of_iff :
    (rule : PrintRule) (task : Task) (board : Board)
    → ((u : Uid)
        → In u (recipients_of rule task board)
          ↔ (IsNamed rule.to task u × (is_member board u ≡ true)))
      × Increasing (recipients_of rule task board)
unfolding recipients_of
recipients_of_iff rule task board =
    let members = keep (λ u. is_member board u) (named rule.to task) in
    (
      λ u.
          let (a, b) = In-dedup u (sort members) in
          let (c, d) = In-sort u members in
          let (e, f) = In-keep u (λ u. is_member board u) (named rule.to task) in
          let (g, h) = In-named rule.to task u in
          (λ m. let (n, k) = e (c (a m)) in (g n, k), λ (n, k). b (d (f (h n, k)))),
      dedup-Increasing (sort members) (sort-Sorted members),
    )
