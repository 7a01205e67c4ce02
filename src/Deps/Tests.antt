-- ===== src/Deps/Tests.antt =====
-- Small graphs.
use taskologic.Prelude.{◌≡◌, ◌↔◌, refl, subst, true, false, none, some, [], ◌∷◌}
use taskologic.Deps.{DepsOf, next_of, put, creates_cycle, first_cycle}
use taskologic.Deps.Search.{Reach}
use taskologic.Deps.Correct.{creates_cycle_iff}
use taskologic.Deps.Edit.{Acyclic, first_cycle_iff}

-- 1 depends on 2, and 2 on 3.
abbrev chain : DepsOf
chain = (1, 2 ∷ []) ∷ (2, 3 ∷ []) ∷ (3, []) ∷ []

chain_cycles :
    (creates_cycle chain 1 1 ≡ true)
    × (creates_cycle chain 2 1 ≡ true)
    × (creates_cycle chain 3 1 ≡ true)
    × (creates_cycle chain 1 3 ≡ false)
    × (creates_cycle chain 4 1 ≡ false)
unfolding creates_cycle next_of
chain_cycles = (refl, refl, refl, refl, refl)

creates_cycle_iff_example : (creates_cycle chain 3 1 ≡ true) ↔ Reach chain 1 3
creates_cycle_iff_example = creates_cycle_iff chain 3 1

-- 3 depends on 1.
abbrev one_edge : DepsOf
one_edge = (1, []) ∷ (2, []) ∷ (3, 1 ∷ []) ∷ []

one_edge_runs :
    (first_cycle one_edge 1 (2 ∷ []) ≡ none) × (first_cycle one_edge 1 (2 ∷ 3 ∷ []) ≡ some 3)
unfolding first_cycle next_of put
one_edge_runs = (refl, refl)

no_edge-Acyclic : Acyclic []
unfolding next_of
no_edge-Acyclic t u e r = cc

-- 1 depends on 2, by an edit of the empty graph.
abbrev edited : DepsOf
edited = (1, 2 ∷ []) ∷ []

edit_runs : (first_cycle [] 1 (2 ∷ []) ≡ none) × (put [] 1 (2 ∷ []) ≡ edited)
unfolding first_cycle next_of put
edit_runs = (refl, refl)

edited-Acyclic : Acyclic edited
edited-Acyclic =
    subst Acyclic edit_runs.1 ((first_cycle_iff [] 1 (2 ∷ []) no_edge-Acyclic).0 edit_runs.0)

-- The edit that closes a cycle is refused, and the graph that it would make has one.
closes : first_cycle edited 2 (3 ∷ 1 ∷ []) ≡ some 1
unfolding first_cycle next_of put
closes = refl

first_cycle_iff_example :
    (first_cycle edited 2 (3 ∷ 1 ∷ []) ≡ none) ↔ Acyclic (put edited 2 (3 ∷ 1 ∷ []))
first_cycle_iff_example = first_cycle_iff edited 2 (3 ∷ 1 ∷ []) edited-Acyclic
