-- ===== src/Prelude/Lists.antt =====
-- Lists measured and indexed by native numbers, under the library's names, and tests on lists.
use Prim.Native.Nat.{ℕ, zero, suc, ◌+◌, ◌<◌}
use mathlib.Core.Path.{◌≡◌, refl, ap}
use mathlib.Core.List.{List, [], ◌∷◌, ◌++◌, map}
use mathlib.Core.Option.{Option, none, some}
use mathlib.Core.Bool.{Bool, true, false, ◌&&◌, ◌||◌}
use native.Mathlib.Omega.{arith}
use taskologic.Prelude.Tests.{◌==◌, if◌then◌else◌}

module _ {ℓ} {A : Type ℓ} where
  abbrev pub length : List A → ℕ
  length [] = 0
  length (x ∷ xs) = suc (length xs)

  abbrev pub get_elem? : List A → ℕ → Option A
  get_elem? [] i = none
  get_elem? (x ∷ xs) zero = some x
  get_elem? (x ∷ xs) (suc i) = get_elem? xs i

  abbrev pub take : ℕ → List A → List A
  take zero xs = []
  take (suc n) [] = []
  take (suc n) (x ∷ xs) = x ∷ take n xs

  abbrev pub drop : ℕ → List A → List A
  drop zero xs = xs
  drop (suc n) [] = []
  drop (suc n) (x ∷ xs) = drop n xs

  pub length-append : (xs ys : List A) → length (xs ++ ys) ≡ length xs + length ys
  length-append [] ys = omega arith
  length-append (x ∷ xs) ys = omega (arith, length-append xs ys)

  -- `iter().any(p)`, `iter().all(p)`, `iter().find(p)`, `iter().filter(p)`.
  abbrev pub any : (A → Bool) → List A → Bool
  any p [] = false
  any p (x ∷ xs) = p x || any p xs

  abbrev pub all : (A → Bool) → List A → Bool
  all p [] = true
  all p (x ∷ xs) = p x && all p xs

  abbrev pub find : (A → Bool) → List A → Option A
  find p [] = none
  find p (x ∷ xs) = if p x then some x else find p xs

  abbrev pub keep : (A → Bool) → List A → List A
  keep p [] = []
  keep p (x ∷ xs) = let rest = keep p xs in if p x then x ∷ rest else rest

  -- A predicate of every element, which computes to a tuple.
  abbrev pub All {κ} : (A → Type κ) → List A → Type κ
  All P [] = Unit
  All P (x ∷ xs) = P x × All P xs

  -- Membership with its place kept.
  pub data In (a : A) : List A → Type ℓ where
    here : {x : A} {xs : List A} → a ≡ x → In a (x ∷ xs)
    there : {x : A} {xs : List A} → In a xs → In a (x ∷ xs)

-- `contains` on a list of numbers.
abbrev pub contains : List ℕ → ℕ → Bool
contains [] t = false
contains (s ∷ ss) t = if s == t then true else contains ss t

pub length-map {ℓ κ} :
    {A : Type ℓ} {B : Type κ} (xs : List A) (f : A → B) → length (map f xs) ≡ length xs
length-map [] f = refl
length-map (x ∷ xs) f = ap suc (length-map xs f)

-- A statement about every list of `n` elements, as a function of the elements.
abbrev pub Each : {A : Type 0} → ℕ → (List A → Type 0) → Type 0
Each zero P = P []
Each {A} (suc n) P = (a : A) → Each n (λ xs. P (a ∷ xs))

pub by_elements :
    {A : Type 0} (n : ℕ) (P : List A → Type 0) → Each n P → (xs : List A) → length xs ≡ n → P xs
by_elements zero P f [] h = f
by_elements zero P f (x ∷ xs) h = absurd (omega arith)
by_elements (suc n) P f [] h = absurd (omega arith)
by_elements (suc n) P f (x ∷ xs) h = by_elements n (λ ys. P (x ∷ ys)) (f x) xs (omega arith)

-- One element more.
pub take-snoc {ℓ} :
    {A : Type ℓ} (n : ℕ) (xs : List A) (x : A)
    → get_elem? xs n ≡ some x
    → take (suc n) xs ≡ take n xs ++ x ∷ []
take-snoc zero [] x h = cc
take-snoc zero (y ∷ xs) x h = ground (arith, h)
take-snoc (suc n) [] x h = cc
take-snoc (suc n) (y ∷ xs) x h = ap (λ t. y ∷ t) (take-snoc n xs x h)

pub take-length {ℓ} : {A : Type ℓ} (n : ℕ) (xs : List A) → length xs ≡ n → take n xs ≡ xs
take-length zero [] h = refl
take-length zero (y ∷ xs) h = absurd (omega arith)
take-length (suc n) [] h = refl
take-length (suc n) (y ∷ xs) h = ap (λ t. y ∷ t) (take-length n xs (omega arith))

pub get_elem?-lt {ℓ} :
    {A : Type ℓ} (xs : List A) (n : ℕ) (x : A) → get_elem? xs n ≡ some x → n < length xs
get_elem?-lt [] n x h = cc
get_elem?-lt (y ∷ xs) zero x h = omega arith
get_elem?-lt (y ∷ xs) (suc n) x h = omega (arith, get_elem?-lt xs n x h)

-- The first of what is left.
pub drop-cons {ℓ} :
    {A : Type ℓ} (n : ℕ) (xs : List A) (x : A) (ys : List A)
    → drop n xs ≡ x ∷ ys
    → (get_elem? xs n ≡ some x) × (drop (suc n) xs ≡ ys) × (length xs ≡ n + 1 + length ys)
drop-cons zero [] x ys h = cc
drop-cons zero (y ∷ xs) x ys h = ground (arith, h)
drop-cons (suc n) [] x ys h = cc
drop-cons (suc n) (y ∷ xs) x ys h =
    let (a, b, c) = drop-cons n xs x ys h in (a, b, omega (arith, c))
