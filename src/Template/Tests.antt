-- ===== src/Template/Tests.antt =====
-- Template 1 needs 2 and 3, and 2 needs 3.
use taskologic.Prelude.{◌≡◌, ◌≢◌, ◌↔◌, ◌++◌, refl, some, List, [], ◌∷◌}
use taskologic.Ids.{TemplateId}
use taskologic.Deps.{DepsOf, next_of, put, first_cycle}
use taskologic.Deps.Search.{Has, Reach}
use taskologic.Deps.Edit.{Acyclic, first_cycle_iff}
use taskologic.Template.{expansion_order}
use taskologic.Template.Order.{Placed, expansion_order_lem}

abbrev two_needs_three : DepsOf
two_needs_three = (2, 3 ∷ []) ∷ []

abbrev one_needs_both : DepsOf
one_needs_both = (2, 3 ∷ []) ∷ (1, 2 ∷ 3 ∷ []) ∷ []

empty-Acyclic : Acyclic []
unfolding next_of
empty-Acyclic t u e r = cc

one_needs_both-Acyclic : Acyclic one_needs_both
unfolding first_cycle next_of put
one_needs_both-Acyclic =
    (first_cycle_iff two_needs_three 1 (2 ∷ 3 ∷ [])
        ((first_cycle_iff [] 2 (3 ∷ []) empty-Acyclic).0 refl)).0
      refl

order_runs : expansion_order one_needs_both 1 ≡ some (3 ∷ 2 ∷ [])
unfolding expansion_order next_of
order_runs = refl

expansion_order_lem_example :
    (order : List TemplateId) × (expansion_order one_needs_both 1 ≡ some order)
    × Placed one_needs_both [] (order ++ 1 ∷ [])
    × ((u : TemplateId) → Has order u ↔ ((u ≢ 1) × Reach one_needs_both 1 u))
expansion_order_lem_example = expansion_order_lem one_needs_both 1 one_needs_both-Acyclic
