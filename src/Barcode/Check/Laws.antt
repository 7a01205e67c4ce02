-- ===== src/Barcode/Check/Laws.antt =====
-- The arithmetic of the check character, on values.
use mathlib.Core.List.{foldl-append}
use taskologic.Prelude.{
  ℕ, ◌/◌, ◌<◌, ◌≡◌, ◌≢◌, ◌⊎◌, refl, some, List, [], ◌∷◌, ◌++◌, foldl, arith, inl, inr,
}
use taskologic.Prelude.Tests.{Option-cases}
use taskologic.Prelude.Text.{Text}
use taskologic.Ids.{base36_value}
use taskologic.Barcode.Check.{modulus, checksum_step, checksum, base36_values, check_value}

pub checksum_step-lt : (s v : ℕ) → checksum_step s v < 36
unfolding checksum_step
checksum_step-lt s v = ground arith

-- Two states stay apart under the same value.
pub checksum_step-left_injective :
    (s t v : ℕ) → s < 36 → t < 36 → checksum_step s v ≡ checksum_step t v → s ≡ t
unfolding checksum_step
checksum_step-left_injective s t v hs ht e = ground arith

-- Two values part the state.
pub checksum_step-right_injective :
    (s v w : ℕ) → v < 36 → w < 36 → checksum_step s v ≡ checksum_step s w → v ≡ w
unfolding checksum_step
checksum_step-right_injective s v w hv hw e = ground arith

pub run-lt : (s : ℕ) (vs : List ℕ) → s < 36 → foldl checksum_step s vs < 36
run-lt s [] h = h
run-lt s (v ∷ vs) h = run-lt (checksum_step s v) vs (checksum_step-lt s v)

pub run-injective :
    (vs : List ℕ) (s t : ℕ)
    → s < 36
    → t < 36
    → foldl checksum_step s vs ≡ foldl checksum_step t vs
    → s ≡ t
run-injective [] s t hs ht e = e
run-injective (v ∷ vs) s t hs ht e = checksum_step-left_injective s t v hs ht (
    run-injective vs (checksum_step s v) (checksum_step t v) (checksum_step-lt s v)
      (checksum_step-lt t v) e)

-- Two values in either order lead to one state exactly when the states between are 18 and 19.
pub checksum_step-swap :
    (s v w : ℕ)
    → s < 36
    → v < 36
    → w < 36
    → v ≢ w
    → checksum_step (checksum_step s v) w ≡ checksum_step (checksum_step s w) v
    → ((checksum_step s v ≡ 18) × (checksum_step s w ≡ 19))
      ⊎ ((checksum_step s v ≡ 19) × (checksum_step s w ≡ 18))
unfolding checksum_step
checksum_step-swap s v w hs hv hw n e = ground arith

pub checksum_step-meet :
    (s v w : ℕ)
    → s < 36
    → v < 36
    → w < 36
    → checksum_step s v ≡ 18
    → checksum_step s w ≡ 19
    → checksum_step (checksum_step s v) w ≡ checksum_step (checksum_step s w) v
unfolding checksum_step
checksum_step-meet s v w hs hv hw p q = ground arith

pub checksum-append : (vs ws : List ℕ) → checksum (vs ++ ws) ≡ foldl checksum_step (checksum vs) ws
unfolding checksum
checksum-append vs ws = rw foldl-append

pub checksum-lt : (vs : List ℕ) → checksum vs < 36
unfolding checksum
checksum-lt vs = run-lt (modulus / 2) vs (omega arith)

-- The check value brings every state to 1, and is below 36.
pub checksum_step-check_value : (cs : ℕ) → cs < 36 → checksum_step cs (check_value cs) ≡ 1
unfolding checksum_step
checksum_step-check_value cs h = ground arith

pub check_value-lt : (cs : ℕ) → check_value cs < 36
check_value-lt cs = ground arith

-- The values of a text and of its parts.
pub base36_values-cons :
    (c v : ℕ) (s : Text) (vs : List ℕ)
    → base36_value c ≡ some v
    → base36_values s ≡ some vs
    → base36_values (c ∷ s) ≡ some (v ∷ vs)
unfolding base36_values
base36_values-cons c v s vs p q = ground arith

pub base36_values-uncons :
    (c : ℕ) (s : Text) (us : List ℕ)
    → base36_values (c ∷ s) ≡ some us
    → (v : ℕ) × (vs : List ℕ) × (base36_value c ≡ some v)
      × (base36_values s ≡ some vs)
      × (us ≡ v ∷ vs)
unfolding base36_values
base36_values-uncons c s us p = elim (Option-cases (base36_value c)) [
  | inl e ↦ absurd (ground arith)
  | inr (v, e) ↦ elim (Option-cases (base36_values s)) [
    | inl e' ↦ absurd (ground arith)
    | inr (vs, e') ↦ (v, vs, e, e', ground arith)
  ]
]

pub base36_values-append :
    (s t : Text) (vs ws : List ℕ)
    → base36_values s ≡ some vs
    → base36_values t ≡ some ws
    → base36_values (s ++ t) ≡ some (vs ++ ws)
base36_values-append [] t vs ws p q = unfold base36_values in ground arith
base36_values-append (c ∷ s) t vs ws p q =
    let (v, us, e, r, k) = base36_values-uncons c s vs p in
    rw k (base36_values-cons c v (s ++ t) (us ++ ws) e (base36_values-append s t us ws r q))

pub base36_values-inv :
    (s t : Text) (us : List ℕ)
    → base36_values (s ++ t) ≡ some us
    → (vs : List ℕ) × (ws : List ℕ) × (base36_values s ≡ some vs) × (base36_values t ≡ some ws)
base36_values-inv [] t us p = ([], us, unfold base36_values in refl, p)
base36_values-inv (c ∷ s) t us p =
    let (v, us', e, r, _) = base36_values-uncons c (s ++ t) us p in
    let (vs, ws, q, q') = base36_values-inv s t us' r in
    (v ∷ vs, ws, base36_values-cons c v s vs e q, q')
