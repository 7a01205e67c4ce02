-- ===== src/Deps/Correct.antt =====
-- `creates_cycle` decides whether a task is reachable along dependencies.
use taskologic.Prelude.{
  ℕ, zero, suc, ◌≡◌, ◌≢◌, ◌↔◌, ◌⊎◌, inl, inr, refl, sym, subst, true, false, List, [], ◌∷◌, ◌++◌,
  reverse, arith,
}
use taskologic.Prelude.Tests.{◌==◌, Bool-cases, ==_iff}
use taskologic.Prelude.Lists.{contains}
use taskologic.Ids.{TaskId}
use taskologic.Deps.{
  DepsOf, next_of, Outcome, found, exhausted, out_of_fuel, search_loop, edges, creates_cycle,
}
use taskologic.Deps.Search.{
  Has, Reach, here, step, contains-append, contains-reverse, search_loop-total, remaining-none,
}

abbrev FromStack : DepsOf → TaskId → List TaskId → Type 0
FromStack g task stack = (s : TaskId) × Has stack s × Reach g s task

Has-extend :
    (g : DepsOf) (t s : TaskId) (stack : List TaskId)
    → Has (reverse (next_of g t) ++ stack) s
    → Has (next_of g t) s ⊎ Has stack s
Has-extend g t s stack h =
    ground
      (arith, h, contains-append (reverse (next_of g t)) stack s, contains-reverse (next_of g t) s)

Has-there : (t s : TaskId) (stack : List TaskId) → Has stack s → Has (t ∷ stack) s
Has-there t s stack h = ground arith

Has-here : (t : TaskId) (stack : List TaskId) → Has (t ∷ stack) t
Has-here t stack = ground arith

-- What the loop finds is reachable from the stack.
search_loop_sound :
    (fuel : ℕ) (g : DepsOf) (task : TaskId) (seen stack : List TaskId)
    → search_loop fuel g task seen stack ≡ found
    → FromStack g task stack
search_loop_sound zero g task seen [] h = absurd (unfold search_loop in cc)
search_loop_sound (suc fuel) g task seen [] h = absurd (unfold search_loop in cc)
search_loop_sound zero g task seen (t ∷ stack) h = absurd (unfold search_loop in cc)
search_loop_sound (suc fuel) g task seen (t ∷ stack) h = elim (Bool-cases (t == task)) [
  | inl e ↦ (t, Has-here t stack, subst (λ u. Reach g t u) ((==_iff t task).0 e) here)
  | inr n ↦ elim (Bool-cases (contains seen t)) [
    | inl old ↦
        let (s, m, r) =
          search_loop_sound fuel g task seen stack (unfold search_loop in ground arith) in
        (s, Has-there t s stack m, r)
    | inr new ↦
        let (s, m, r) =
          search_loop_sound fuel g task (t ∷ seen) (reverse (next_of g t) ++ stack)
            (unfold search_loop in ground arith) in
        elim (Has-extend g t s stack m) [
          | inl edge ↦ (t, Has-here t stack, step edge r)
          | inr rest ↦ (s, Has-there t s stack rest, r)
        ]
  ]
]

-- A set that is closed under dependencies and does not hold the task.
record Closed (g : DepsOf) (task : TaskId) (all : List TaskId) : Type 0 where
  without : contains all task ≡ false
  closed : (s u : TaskId) → Has all s → Has (next_of g s) u → Has all u

Closed-Reach :
    (g : DepsOf) (task : TaskId) (all : List TaskId) {s : TaskId}
    → Closed g task all
    → Reach g s task
    → Has all s
    → ⊥
Closed-Reach g task all {s} c r m = walk r m c.without
  where
    walk : {a b : TaskId} → Reach g a b → Has all a → contains all b ≡ false → ⊥
    walk here m e = cc
    walk (step {t} {u} edge r) m e = walk r (c.closed t u m edge) e

-- What the loop has not yet closed is on the stack.
record Open (g : DepsOf) (task : TaskId) (seen stack : List TaskId) : Type 0 where
  without : contains seen task ≡ false
  queued : (s u : TaskId) → Has seen s → Has (next_of g s) u → Has seen u ⊎ Has stack u

record Covers (g : DepsOf) (task : TaskId) (seen stack : List TaskId) : Type 0 where
  all : List TaskId
  closed : Closed g task all
  of_seen : (s : TaskId) → Has seen s → Has all s
  of_stack : (s : TaskId) → Has stack s → Has all s

Open-skip :
    (g : DepsOf) (task t : TaskId) (seen stack : List TaskId)
    → Has seen t
    → Open g task seen (t ∷ stack)
    → Open g task seen stack
Open-skip g task t seen stack old o = record {
  without = o.without;
  queued = λ s u m e. ground (arith, o.queued s u m e, ==_iff t u);
}

Open-extend :
    (g : DepsOf) (task t : TaskId) (seen stack : List TaskId)
    → (t == task) ≡ false
    → Open g task seen (t ∷ stack)
    → Open g task (t ∷ seen) (reverse (next_of g t) ++ stack)
Open-extend g task t seen stack n o = record {
  without = ground (arith, o.without);
  queued = λ s u m e. ground (
    arith,
    o.queued s u,
    ==_iff t s,
    ==_iff t u,
    contains-append (reverse (next_of g t)) stack u,
    contains-reverse (next_of g t) u,
  );
}

-- When the stack is empty, what was seen is closed.
Open-done :
    (g : DepsOf) (task : TaskId) (seen : List TaskId) → Open g task seen [] → Covers g task seen []
Open-done g task seen o = record {
  all = seen;
  closed = record {
    without = o.without;
    closed = λ s u m e. elim (o.queued s u m e) [ inl h ↦ h | inr h ↦ absurd (cc) ];
  };
  of_seen = λ s h. h;
  of_stack = λ s h. absurd (cc);
}

-- What is exhausted was closed, and held everything on the stack.
search_loop-Covers :
    (fuel : ℕ) (g : DepsOf) (task : TaskId) (seen stack : List TaskId)
    → search_loop fuel g task seen stack ≡ exhausted
    → Open g task seen stack
    → Covers g task seen stack
search_loop-Covers zero g task seen [] h o = Open-done g task seen o
search_loop-Covers (suc fuel) g task seen [] h o = Open-done g task seen o
search_loop-Covers zero g task seen (t ∷ stack) h o = absurd (unfold search_loop in cc)
search_loop-Covers (suc fuel) g task seen (t ∷ stack) h o = elim (Bool-cases (t == task)) [
  | inl e ↦ absurd (unfold search_loop in ground arith)
  | inr n ↦ elim (Bool-cases (contains seen t)) [
    | inl old ↦
        let c =
          search_loop-Covers fuel g task seen stack (unfold search_loop in ground arith)
            (Open-skip g task t seen stack old o) in
        record {
          all = c.all;
          closed = c.closed;
          of_seen = c.of_seen;
          of_stack = λ s m. ground (arith, c.of_stack s, c.of_seen t old, ==_iff t s);
        }
    | inr new ↦
        let more = reverse (next_of g t) ++ stack in
        let c =
          search_loop-Covers fuel g task (t ∷ seen) more (unfold search_loop in ground arith)
            (Open-extend g task t seen stack n o) in
        record {
          all = c.all;
          closed = c.closed;
          of_seen = λ s m. c.of_seen s (Has-there t s seen m);
          of_stack = λ s m. ground (
            arith,
            c.of_seen t (Has-here t seen),
            c.of_stack s,
            ==_iff t s,
            contains-append (reverse (next_of g t)) stack s,
          );
        }
  ]
]

Outcome-cases : (o : Outcome) → o ≢ out_of_fuel → (o ≡ found) ⊎ (o ≡ exhausted)
Outcome-cases found n = inl refl
Outcome-cases exhausted n = inr refl
Outcome-cases out_of_fuel n = absurd (n refl)

-- A new dependency creates a cycle, by the code's search, exactly when the task is reachable from
-- it along dependencies.
pub creates_cycle_iff :
    (g : DepsOf) (task new_dep : TaskId)
    → (creates_cycle g task new_dep ≡ true) ↔ Reach g new_dep task
creates_cycle_iff g task new_dep =
    let run = search_loop (suc (edges g)) g task [] (new_dep ∷ []) in
    let ends : run ≢ out_of_fuel =
      search_loop-total (suc (edges g)) g task [] (new_dep ∷ [])
        (omega (arith, remaining-none g)) in
    (
      λ h. elim (Bool-cases (task == new_dep)) [
        | inl e ↦ subst (λ t. Reach g new_dep t) (sym ((==_iff task new_dep).0 e)) here
        | inr n ↦ elim (Outcome-cases run ends) [
          | inl f ↦
              let (s, m, r) = search_loop_sound (suc (edges g)) g task [] (new_dep ∷ []) f in
              subst (λ t. Reach g t task) (sym ((==_iff new_dep s).0 (ground arith))) r
          | inr x ↦ absurd (unfold creates_cycle in ground arith)
        ]
      ],
      λ r. elim (Outcome-cases run ends) [
        | inl f ↦ unfold creates_cycle in ground arith
        | inr x ↦
            let c =
              search_loop-Covers (suc (edges g)) g task [] (new_dep ∷ []) x
                (record { without = refl; queued = λ s u m e. absurd (cc) }) in
            absurd (Closed-Reach g task c.all c.closed r (c.of_stack new_dep (Has-here new_dep [])))
      ],
    )
