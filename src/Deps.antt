-- ===== src/Deps.antt =====
-- crates/taskologic-core/src/deps.rs: dependency graph rules. Cycles are rejected when a dependency
-- is made, so the graph stays a DAG. The map from a task to its direct dependencies is an association
-- list with one entry for a key; the set `seen` is a list.
pub mod Search
pub mod Correct
pub mod Edit
pub mod Tests
use taskologic.Prelude.{
  ℕ, zero, suc, ◌+◌, Option, none, some, Bool, true, false, List, [], ◌∷◌, ◌++◌, reverse,
}
use taskologic.Prelude.Tests.{◌==◌, if◌then◌else◌}
use taskologic.Prelude.Lists.{length, contains}
use taskologic.Ids.{TaskId}

abbrev pub DepsOf : Type 0
DepsOf = List (TaskId × List TaskId)

-- `deps_of.get(&t)`, with no entry read as no dependencies: the code does nothing on a missing one.
unfoldable pub next_of : DepsOf → TaskId → List TaskId
next_of [] t = []
next_of ((s, ds) ∷ g) t = if s == t then ds else next_of g t

-- `insert`, `entry(task).or_default()` and a write
unfoldable pub put : DepsOf → TaskId → List TaskId → DepsOf
put [] t ds = (t, ds) ∷ []
put ((s, es) ∷ g) t ds = if s == t then (t, ds) ∷ g else (s, es) ∷ put g t ds

pub data Outcome : Type 0 where
  found exhausted out_of_fuel : Outcome

-- The `while` loop: a vector's last element is the head of the list, so `extend` puts the reverse of
-- the new elements in front.
unfoldable pub search_loop : ℕ → DepsOf → TaskId → List TaskId → List TaskId → Outcome
search_loop fuel deps_of task seen [] = exhausted
search_loop zero deps_of task seen (t ∷ stack) = out_of_fuel
search_loop (suc fuel) deps_of task seen (t ∷ stack) =
    let skip = search_loop fuel deps_of task seen stack in
    let extend = search_loop fuel deps_of task (t ∷ seen) (reverse (next_of deps_of t) ++ stack) in
    if t == task then found else if contains seen t then skip else extend

-- All edges: each is pushed at most once, since a task is expanded only when it is new.
unfoldable pub edges : DepsOf → ℕ
edges [] = 0
edges ((t, ds) ∷ g) = length ds + edges g

abbrev pub is_found : Outcome → Bool
is_found found = true
is_found exhausted = false
is_found out_of_fuel = false

-- Fuel: one round for the first element and one for each edge.
unfoldable pub creates_cycle : DepsOf → TaskId → TaskId → Bool
unfolding search_loop edges
creates_cycle deps_of task new_dep =
    if task == new_dep
    then true
    else is_found (search_loop (suc (edges deps_of)) deps_of task [] (new_dep ∷ []))

-- The loop of `first_cycle`.
unfoldable pub first_cycle_loop : DepsOf → TaskId → List TaskId → Option TaskId
unfolding creates_cycle
first_cycle_loop graph task [] = none
first_cycle_loop graph task (dep ∷ proposed) =
    let rest = first_cycle_loop (put graph task (next_of graph task ++ dep ∷ [])) task proposed in
    if creates_cycle graph task dep then some dep else rest

unfoldable pub first_cycle : DepsOf → TaskId → List TaskId → Option TaskId
unfolding first_cycle_loop
first_cycle deps_of task proposed = first_cycle_loop (put deps_of task []) task proposed
