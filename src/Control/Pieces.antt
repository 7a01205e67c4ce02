-- ===== src/Control/Pieces.antt =====
-- control.rs: the pieces of a code that is too wide for the paper.
use taskologic.Prelude.{
  ℕ, zero, suc, ◌+◌, ◌≤◌, max, ◌≡◌, refl, ap, ◌∙◌, inl, inr, List, [], ◌∷◌, ◌++◌, arith,
}
use mathlib.Core.List.{append_assoc, append-nil}
use taskologic.Prelude.Tests.{leb, Bool-cases}
use taskologic.Prelude.Lists.{All, length, length-append}
use taskologic.Prelude.Text.{Text}
use taskologic.Control.Layout.{code128_modules, most_chars, chunks_of, chunks}

-- What the detector sees of the pieces, one after the other.
abbrev pub stitched : List Text → Text
stitched [] = []
stitched (p ∷ ps) = p ++ stitched ps

stitched-chunks_of : (size : ℕ) (piece s : Text) → stitched (chunks_of size piece s) ≡ piece ++ s
unfolding chunks_of
stitched-chunks_of size piece [] = refl
stitched-chunks_of size piece (c ∷ s) = elim (Bool-cases (leb size (length piece))) [
  | inl full ↦ rw (chunks_of, full) (ap (λ t. piece ++ t) (stitched-chunks_of size (c ∷ []) s))
  | inr room ↦
      rw (chunks_of, room)
        (stitched-chunks_of size (piece ++ c ∷ []) s ∙ append_assoc piece (c ∷ []) s)
]

abbrev pub IsPiece : ℕ → Text → Type 0
IsPiece size p = (1 ≤ length p) × (length p ≤ size)

chunks_of-IsPiece :
    (size : ℕ) (piece s : Text)
    → 1 ≤ size
    → 1 ≤ length piece + length s
    → length piece ≤ size
    → All (IsPiece size) (chunks_of size piece s)
unfolding chunks_of
chunks_of-IsPiece size piece [] h n l = ((omega arith, omega arith), tt)
chunks_of-IsPiece size piece (c ∷ s) h n l = elim (Bool-cases (leb size (length piece))) [
  | inl full ↦
      rw (chunks_of, full)
        (
          (ground arith, omega arith),
          chunks_of-IsPiece size (c ∷ []) s h (omega arith) (omega arith),
        )
  | inr room ↦
      let more = length-append piece (c ∷ []) in
      rw (chunks_of, room)
        (chunks_of-IsPiece size (piece ++ c ∷ []) s h (omega arith) (ground (arith, more)))
]

most_chars-fits :
    (n dots : ℕ) → code128_modules 1 ≤ dots → code128_modules (most_chars n dots) ≤ dots
unfolding most_chars
most_chars-fits zero dots h = omega arith
most_chars-fits (suc n) dots h = ground (arith, most_chars-fits n dots h)

All-mono : {P Q : Text → Type 0} (ps : List Text) → ((p : Text) → P p → Q p) → All P ps → All Q ps
All-mono [] f h = tt
All-mono (p ∷ ps) f (h, hs) = (f p h, All-mono ps f hs)

-- On paper that takes three characters of CODE128 at one dot per module, each of the pieces that
-- `chunks` cuts a payload into fits the paper, and scanned one after the other they are the payload.
pub chunks-stitched :
    (payload : Text) (dots : ℕ)
    → code128_modules 3 ≤ dots
    → (stitched (chunks payload dots) ≡ payload)
      × All (λ p. code128_modules (length p) ≤ dots) (chunks payload dots)
unfolding chunks
chunks-stitched payload dots h =
    let most = most_chars (length payload) dots in
    let most_fits = most_chars-fits (length payload) dots (omega arith) in
    elim (Bool-cases (leb (length payload) most)) [
      | inl whole ↦ rw (chunks, whole) (append-nil payload, (ground arith, tt))
      | inr wide ↦
          rw (chunks, wide)
            (
              stitched-chunks_of (max most 3) [] payload,
              All-mono (chunks_of (max most 3) [] payload) (λ p i. omega (arith, i))
                  (chunks_of-IsPiece (max most 3) [] payload (omega arith) (ground arith)
                    (omega arith)),
            )
    ]
