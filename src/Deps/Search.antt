-- ===== src/Deps/Search.antt =====
-- The search of deps.rs: it ends, and what it says is so.
use mathlib.Core.List.{reverse-append}
use taskologic.Prelude.{
  ℕ, zero, suc, ◌+◌, ◌≤◌, ◌≡◌, ◌≢◌, refl, ap, ◌∙◌, true, false, ◌||◌, List, [], ◌∷◌, ◌++◌, reverse,
  arith,
}
use taskologic.Prelude.Tests.{if◌then◌else◌, ==_iff}
use taskologic.Prelude.Lists.{contains, length, length-append}
use taskologic.Ids.{TaskId}
use taskologic.Deps.{DepsOf, next_of, out_of_fuel, search_loop, edges}

abbrev pub Has : List TaskId → TaskId → Type 0
Has xs t = contains xs t ≡ true

-- The walks along dependencies.
pub data Reach (g : DepsOf) : TaskId → TaskId → Type 0 where
  here : {t : TaskId} → Reach g t t
  step : {t u v : TaskId} → Has (next_of g t) u → Reach g u v → Reach g t v

pub contains-append :
    (xs ys : List TaskId) (t : TaskId) → contains (xs ++ ys) t ≡ (contains xs t || contains ys t)
contains-append [] ys t = refl
contains-append (x ∷ xs) ys t = ground (arith, contains-append xs ys t)

pub contains-reverse : (xs : List TaskId) (t : TaskId) → contains (reverse xs) t ≡ contains xs t
contains-reverse [] t = refl
contains-reverse (x ∷ xs) t =
    ap (λ ys. contains ys t) (reverse-append (x ∷ []) xs)
    ∙ contains-append (reverse xs) (x ∷ []) t
    ∙ ground (arith, contains-reverse xs t)

pub length-reverse : (xs : List TaskId) → length (reverse xs) ≡ length xs
length-reverse [] = refl
length-reverse (x ∷ xs) =
    ap (λ (ys : List TaskId). length ys) (reverse-append (x ∷ []) xs)
    ∙ omega (arith, length-append (reverse xs) (x ∷ []), length-reverse xs)

-- The edges out of tasks that are not seen yet.
pub remaining : DepsOf → List TaskId → ℕ
remaining [] seen = 0
remaining ((t, ds) ∷ g) seen = (if contains seen t then 0 else length ds) + remaining g seen

pub remaining-none : (g : DepsOf) → remaining g [] ≡ edges g
unfolding remaining edges
remaining-none [] = refl
remaining-none ((t, ds) ∷ g) = omega (arith, remaining-none g)

remaining-le :
    (g : DepsOf) (seen : List TaskId) (t : TaskId) → remaining g (t ∷ seen) ≤ remaining g seen
unfolding remaining
remaining-le [] seen t = omega arith
remaining-le ((s, ds) ∷ g) seen t = ground (arith, remaining-le g seen t)

remaining-cons :
    (g : DepsOf) (seen : List TaskId) (t : TaskId)
    → contains seen t ≡ false
    → remaining g (t ∷ seen) + length (next_of g t) ≤ remaining g seen
unfolding remaining next_of
remaining-cons [] seen t h = omega arith
remaining-cons ((s, ds) ∷ g) seen t h =
    ground (arith, remaining-le g seen t, remaining-cons g seen t, ==_iff s t, ==_iff t s)

-- With a round for each element of the stack and for each edge that is left the loop ends.
pub search_loop-total :
    (fuel : ℕ) (g : DepsOf) (task : TaskId) (seen stack : List TaskId)
    → length stack + remaining g seen ≤ fuel
    → search_loop fuel g task seen stack ≢ out_of_fuel
unfolding search_loop
search_loop-total zero g task seen [] h = λ e. cc
search_loop-total (suc fuel) g task seen [] h = λ e. cc
search_loop-total zero g task seen (t ∷ stack) h = absurd (omega arith)
search_loop-total (suc fuel) g task seen (t ∷ stack) h =
    let more = reverse (next_of g t) ++ stack in
    let size = length-append (reverse (next_of g t)) stack in
    let size' = length-reverse (next_of g t) in
    let left = remaining-cons g seen t in
    ground (
      arith,
      size,
      size',
      left,
      search_loop-total fuel g task seen stack,
      search_loop-total fuel g task (t ∷ seen) more,
    )
