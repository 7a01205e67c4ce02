-- ===== src/Deps/Edit.antt =====
-- `first_cycle`: an edit of the dependencies that it lets through keeps the graph a DAG.
use mathlib.Core.List.{append-nil}
use taskologic.Prelude.{
  ◌≡◌, ◌↔◌, ◌⊎◌, inl, inr, refl, ap, sym, ◌∙◌, subst, Bool, true, false, none, some, List, [], ◌∷◌,
  ◌++◌, arith,
}
use taskologic.Prelude.Tests.{◌==◌, if◌then◌else◌, Bool-cases, Option-cases, ==_iff, ==_refl}
use taskologic.Ids.{TaskId}
use taskologic.Prelude.Lists.{contains}
use taskologic.Deps.{DepsOf, next_of, put, creates_cycle, first_cycle_loop, first_cycle}
use taskologic.Deps.Search.{Has, Reach, here, step, contains-append}
use taskologic.Deps.Correct.{creates_cycle_iff}

-- No task is reachable from one of its own dependencies.
abbrev pub Acyclic : DepsOf → Type 0
Acyclic g = (t u : TaskId) → Has (next_of g t) u → ¬ Reach g u t

pub next_of-put :
    (g : DepsOf) (t s : TaskId) (ds : List TaskId)
    → next_of (put g t ds) s ≡ (if t == s then ds else next_of g s)
unfolding next_of put
next_of-put [] t s ds = refl
next_of-put ((u, es) ∷ g) t s ds =
    ground (arith, next_of-put g t s ds, ==_iff u t, ==_iff u s, ==_iff t s)

-- Two graphs with the same edges, or fewer.
abbrev Below : DepsOf → DepsOf → Type 0
Below g h = (t u : TaskId) → Has (next_of g t) u → Has (next_of h t) u

Reach-mono : (g h : DepsOf) {a b : TaskId} → Below g h → Reach g a b → Reach h a b
Reach-mono g h le here = here
Reach-mono g h le (step {t} {u} e r) = step (le t u e) (Reach-mono g h le r)

Acyclic-mono : (g h : DepsOf) → Below g h → Acyclic h → Acyclic g
Acyclic-mono g h le a t u e r = a t u (le t u e) (Reach-mono g h le r)

pub Reach-trans : (g : DepsOf) {a b c : TaskId} → Reach g a b → Reach g b c → Reach g a c
Reach-trans g here s = s
Reach-trans g (step e r) s = step e (Reach-trans g r s)

-- The graph with one dependency more.
abbrev add : DepsOf → TaskId → TaskId → DepsOf
add g task dep = put g task (next_of g task ++ dep ∷ [])

module _ (g : DepsOf) (task dep : TaskId) where
  add-edge :
      (t u : TaskId)
      → Has (next_of (add g task dep) t) u
      → Has (next_of g t) u ⊎ ((t ≡ task) × (u ≡ dep))
  add-edge t u e = ground (
    arith,
    next_of-put g task t (next_of g task ++ dep ∷ []),
    ==_iff task t,
    ==_iff dep u,
    contains-append (next_of g task) (dep ∷ []) u,
  )

  add-old : Below g (add g task dep)
  add-old t u e = ground (
    arith,
    next_of-put g task t (next_of g task ++ dep ∷ []),
    ==_iff task t,
    contains-append (next_of g task) (dep ∷ []) u,
  )

  add-new : Has (next_of (add g task dep) task) dep
  add-new = ground (
    arith,
    next_of-put g task task (next_of g task ++ dep ∷ []),
    ==_refl task,
    ==_refl dep,
    contains-append (next_of g task) (dep ∷ []) dep,
  )

  -- A walk either does without the new edge, or goes to it and on from its end.
  add-Reach :
      {a b : TaskId} → Reach (add g task dep) a b → Reach g a b ⊎ (Reach g a task × Reach g dep b)
  add-Reach here = inl here
  add-Reach (step {t} {u} {v} e r) = elim (add-edge t u e) [
    | inl old ↦ elim (add-Reach r) [ inl w ↦ inl (step old w) | inr (w, w') ↦ inr (step old w, w') ]
    | inr (pt, pu) ↦ elim (add-Reach r) [
      | inl w ↦ inr (subst (λ x. Reach g x task) (sym pt) here, subst (λ x. Reach g x v) pu w)
      | inr (w, w') ↦ inr (subst (λ x. Reach g x task) (sym pt) here, w')
    ]
  ]

  -- A dependency from which the task is not reachable makes no cycle.
  add-Acyclic : Acyclic g → ¬ Reach g dep task → Acyclic (add g task dep)
  add-Acyclic a n t u e r = elim (add-edge t u e) [
    | inl old ↦ elim (add-Reach r) [
      | inl w ↦ a t u old w
      | inr (w, w') ↦ n (Reach-trans g w' (step old w))
    ]
    | inr (pt, pu) ↦ elim (add-Reach r) [
      | inl w ↦ n (subst (λ x. Reach g x task) pu (subst (λ x. Reach g u x) pt w))
      | inr (w, w') ↦ n (subst (λ x. Reach g dep x) pt w')
    ]
  ]

-- Putting a list in two steps, or at once.
put-Below :
    (g : DepsOf) (task : TaskId) (ds es : List TaskId)
    → ((u : TaskId) → Has ds u → Has es u)
    → Below (put g task ds) (put g task es)
put-Below g task ds es h t u e =
    ground (arith, next_of-put g task t ds, next_of-put g task t es, h u)

put-put-Below :
    (g : DepsOf) (task : TaskId) (ds es fs : List TaskId)
    → ((u : TaskId) → Has fs u → Has es u)
    → Below (put g task fs) (put (put g task ds) task es)
put-put-Below g task ds es fs h t u e = ground (
  arith,
  next_of-put g task t fs,
  next_of-put (put g task ds) task t es,
  next_of-put g task t ds,
  h u,
)

put-put-Above :
    (g : DepsOf) (task : TaskId) (ds es fs : List TaskId)
    → ((u : TaskId) → Has es u → Has fs u)
    → Below (put (put g task ds) task es) (put g task fs)
put-put-Above g task ds es fs h t u e = ground (
  arith,
  next_of-put g task t fs,
  next_of-put (put g task ds) task t es,
  next_of-put g task t ds,
  h u,
)

-- The list of a task with more at its end.
abbrev grown : DepsOf → TaskId → List TaskId → DepsOf
grown g task more = put g task (next_of g task ++ more)

grown-nil : (g : DepsOf) (task : TaskId) → Below (grown g task []) g
grown-nil g task t u e =
    ground (
      arith,
      next_of-put g task t (next_of g task ++ []),
      append-nil (next_of g task),
      ==_iff task t,
    )

grown-above : (g : DepsOf) (task : TaskId) (more : List TaskId) → Below g (grown g task more)
grown-above g task more t u e = ground (
  arith,
  next_of-put g task t (next_of g task ++ more),
  ==_iff task t,
  contains-append (next_of g task) more u,
)

module _ (g : DepsOf) (task dep : TaskId) (more : List TaskId) where
  abbrev stepwise : DepsOf
  stepwise = grown (add g task dep) task more

  same_items :
      (u : TaskId)
      → contains (next_of (add g task dep) task ++ more) u
        ≡ contains (next_of g task ++ dep ∷ more) u
  same_items u = ground (
    arith,
    next_of-put g task task (next_of g task ++ dep ∷ []),
    ==_refl task,
    contains-append (next_of (add g task dep) task) more u,
    contains-append (next_of g task ++ dep ∷ []) more u,
    contains-append (next_of g task) (dep ∷ []) u,
    contains-append (next_of g task) (dep ∷ more) u,
  )

  grown-Below : Below (grown g task (dep ∷ more)) stepwise
  grown-Below =
      put-put-Below g task (next_of g task ++ dep ∷ []) (next_of (add g task dep) task ++ more)
        (next_of g task ++ dep ∷ more) (λ u h. same_items u ∙ h)

  stepwise-Below : Below stepwise (grown g task (dep ∷ more))
  stepwise-Below =
      put-put-Above g task (next_of g task ++ dep ∷ []) (next_of (add g task dep) task ++ more)
        (next_of g task ++ dep ∷ more) (λ u h. sym (same_items u) ∙ h)

first_cycle_loop_sound :
    (g : DepsOf) (task : TaskId) (proposed : List TaskId)
    → first_cycle_loop g task proposed ≡ none
    → Acyclic g
    → Acyclic (grown g task proposed)
first_cycle_loop_sound g task [] h a = Acyclic-mono (grown g task []) g (grown-nil g task) a
first_cycle_loop_sound g task (dep ∷ proposed) h a = elim (Bool-cases (creates_cycle g task dep)) [
  | inl bad ↦ absurd (unfold first_cycle_loop in ground arith)
  | inr fine ↦
      let unreached =
        λ (r : Reach g dep task). false-true _ fine ((creates_cycle_iff g task dep).1 r) in
      Acyclic-mono (grown g task (dep ∷ proposed)) (stepwise g task dep proposed)
        (grown-Below g task dep proposed)
        (first_cycle_loop_sound (add g task dep) task proposed
          (unfold first_cycle_loop in ground arith) (add-Acyclic g task dep a unreached))
]
  where
    false-true : (b : Bool) → b ≡ false → b ≡ true → ⊥
    false-true b p q = cc

first_cycle_loop_complete :
    (g : DepsOf) (task : TaskId) (proposed : List TaskId) (c : TaskId)
    → first_cycle_loop g task proposed ≡ some c
    → ¬ Acyclic (grown g task proposed)
first_cycle_loop_complete g task [] c h a = unfold first_cycle_loop in cc
first_cycle_loop_complete g task (dep ∷ proposed) c h a =
    elim (Bool-cases (creates_cycle g task dep)) [
      | inl bad ↦
          let r = (creates_cycle_iff g task dep).0 bad in
          a task dep
            (ground (
              arith,
              next_of-put g task task (next_of g task ++ dep ∷ proposed),
              ==_refl task,
              ==_refl dep,
              contains-append (next_of g task) (dep ∷ proposed) dep,
            ))
            (Reach-mono g (grown g task (dep ∷ proposed)) (grown-above g task (dep ∷ proposed)) r)
      | inr fine ↦
          first_cycle_loop_complete (add g task dep) task proposed c
            (unfold first_cycle_loop in ground arith)
            (Acyclic-mono (stepwise g task dep proposed) (grown g task (dep ∷ proposed))
              (stepwise-Below g task dep proposed) a)
    ]

cleared-Below : (g : DepsOf) (task : TaskId) → Below (put g task []) g
cleared-Below g task t u e = ground (arith, next_of-put g task t [], ==_iff task t)

-- Replacing the dependencies of a task in an acyclic graph is let through exactly when the graph
-- with the new list is acyclic too.
pub first_cycle_iff :
    (g : DepsOf) (task : TaskId) (proposed : List TaskId)
    → Acyclic g
    → (first_cycle g task proposed ≡ none) ↔ Acyclic (put g task proposed)
first_cycle_iff g task proposed a =
    let cleared = put g task [] in
    let empty : next_of cleared task ≡ [] =
      next_of-put g task task [] ∙ ground (arith, ==_refl task) in
    let items : (u : TaskId) → contains (next_of cleared task ++ proposed) u ≡ contains proposed u =
      λ u. ap (λ ds. contains (ds ++ proposed) u) empty in
    (
      λ h.
          Acyclic-mono (put g task proposed) (grown cleared task proposed)
            (put-put-Below g task [] (next_of cleared task ++ proposed) proposed
              (λ u k. items u ∙ k))
            (first_cycle_loop_sound cleared task proposed (unfold first_cycle in h)
              (Acyclic-mono cleared g (cleared-Below g task) a)),
      λ b. elim (Option-cases (first_cycle g task proposed)) [
        | inl e ↦ e
        | inr (c, e) ↦ absurd (
            first_cycle_loop_complete cleared task proposed c (unfold first_cycle in e) (
              Acyclic-mono (grown cleared task proposed) (put g task proposed)
                (put-put-Above g task [] (next_of cleared task ++ proposed) proposed
                  (λ u k. sym (items u) ∙ k))
                b))
      ],
    )
