-- ===== src/Template.antt =====
-- crates/taskologic-core/src/template.rs: what a template prefills, and in which order the templates
-- that another depends on are stamped out. Its `creates_cycle` and `first_cycle` are, line for line,
-- those of deps.rs, and share their definitions. A set is a list, and so is the vector `out`, with its
-- last element last.
pub mod Total
pub mod Order
pub mod Tests
use taskologic.Prelude.{
  ℕ, zero, suc, ◌≡◌, Option, none, some, Bool, true, false, not, ◌&&◌, ◌||◌, List, [], ◌∷◌, ◌++◌,
  ◌+◌,
}
use taskologic.Prelude.Tests.{◌==◌, leb, if◌then◌else◌}
use taskologic.Prelude.Lists.{length, keep, contains}
use taskologic.Ids.{TemplateId}
use taskologic.Time.{DateTime, TimeDelta, Offset, after}
use taskologic.Deps.{DepsOf, next_of}
use taskologic.Deps

pub record FromAverage : Type 0 where
  pub min_samples : ℕ

pub record TemplateOptions : Type 0 where
  pub start_prefill : Option Offset
  pub due_prefill : Option Offset
  pub due_from_average : Option FromAverage
  pub dep_templates : List TemplateId

module _ (try_minutes : ℕ → Option TimeDelta)
    (checked_add_signed : DateTime → TimeDelta → Option DateTime) where
  -- `offset?.after(now)`
  abbrev pub prefilled : Option Offset → DateTime → Option DateTime
  prefilled none now = none
  prefilled (some o) now = after try_minutes checked_add_signed o now

  unfoldable pub start_for : TemplateOptions → DateTime → Option DateTime
  start_for o now = prefilled o.start_prefill now

  -- What the first `if` of `due_for` returns, when it returns.
  abbrev pub from_average :
      Option FromAverage → Option DateTime → Option (TimeDelta × ℕ) → Option DateTime
  from_average (some rule) (some start) (some (average, samples)) =
      if leb rule.min_samples samples then checked_add_signed start average else none
  from_average _ _ _ = none

  unfoldable pub due_for :
      TemplateOptions → DateTime → Option DateTime → Option (TimeDelta × ℕ) → Option DateTime
  due_for o now start history = elim (from_average o.due_from_average start history) [
    | some due ↦ some due
    | none ↦ prefilled o.due_prefill now
  ]

unfoldable pub creates_cycle : DepsOf → TemplateId → TemplateId → Bool
unfolding Deps.creates_cycle
creates_cycle deps_of template new_dep = Deps.creates_cycle deps_of template new_dep

unfoldable pub first_cycle : DepsOf → TemplateId → List TemplateId → Option TemplateId
unfolding Deps.first_cycle
first_cycle deps_of template proposed = Deps.first_cycle deps_of template proposed

-- The sets and the vector that `walk` writes.
pub record Walk : Type 0 where
  pub done : List TemplateId
  pub on_stack : List TemplateId
  pub out : List TemplateId

-- The loop over the dependencies; none where a walk ran out of fuel.
unfoldable pub walk_all : (TemplateId → Walk → Option Walk) → List TemplateId → Walk → Option Walk
walk_all step [] w = some w
walk_all step (d ∷ ds) w = elim (step d w) [ none ↦ none | some w' ↦ walk_all step ds w' ]

-- `on_stack.remove(&t)`, `done.insert(t)` and `out.push(t)`
abbrev pub emit : TemplateId → Walk → Walk
emit t w = record {
  done = t ∷ w.done;
  on_stack = keep (λ u. not (u == t)) w.on_stack;
  out = w.out ++ t ∷ [];
}

abbrev pub emitted : TemplateId → Option Walk → Option Walk
emitted t none = none
emitted t (some w) = some (emit t w)

unfoldable pub walk : ℕ → DepsOf → TemplateId → Walk → Option Walk
unfolding walk_all
walk zero deps_of t w = none
walk (suc fuel) deps_of t w =
    let inner =
      walk_all (walk fuel deps_of) (next_of deps_of t) (record w { on_stack = t ∷ w.on_stack }) in
    if contains w.done t || contains w.on_stack t then some w else emitted t inner

-- `Vec::pop`, of which the rest is kept.
abbrev pub pop : List TemplateId → List TemplateId
pop [] = []
pop (t ∷ []) = []
pop (t ∷ u ∷ ts) = t ∷ pop (u ∷ ts)

abbrev pub no_walk : Walk
no_walk = record { done = []; on_stack = []; out = [] }

abbrev pub popped : Option Walk → Option (List TemplateId)
popped none = none
popped (some w) = some (pop w.out)

-- A walk inside a walk is for another template that has an entry, so the depth is at most the
-- number of entries and one more: `walk-Ends`.
unfoldable pub expansion_order : DepsOf → TemplateId → Option (List TemplateId)
unfolding walk
expansion_order deps_of root = popped (walk (length deps_of + 2) deps_of root no_walk)
