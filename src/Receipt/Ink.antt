-- ===== src/Receipt/Ink.antt =====
-- layout.rs: the characters of words and lines, without their blanks.
use mathlib.Core.List.{append_assoc, append-nil}
use taskologic.Prelude.{
  ℕ, zero, suc, ◌-◌, ◌≤◌, ◌≡◌, refl, ap, sym, ◌∙◌, inl, inr, false, not, List, [], ◌∷◌, ◌++◌, arith,
}
use taskologic.Prelude.Tests.{Bool-cases}
use taskologic.Prelude.Lists.{length, take, drop, keep, All}
use taskologic.Prelude.Text.{Text, is_whitespace}
use taskologic.Receipt.{words_from}

-- What is left of a text without its blanks, and of lines one after the other.
abbrev pub ink : Text → Text
ink s = keep (λ c. not (is_whitespace c)) s

abbrev pub inks : List Text → Text
inks [] = []
inks (l ∷ ls) = ink l ++ inks ls

pub ink-append : (s t : Text) → ink (s ++ t) ≡ ink s ++ ink t
ink-append [] t = refl
ink-append (c ∷ s) t = ground (arith, ink-append s t)

pub inks-append : (ls ms : List Text) → inks (ls ++ ms) ≡ inks ls ++ inks ms
inks-append [] ms = refl
inks-append (l ∷ ls) ms =
    ap (λ t. ink l ++ t) (inks-append ls ms) ∙ sym (append_assoc (ink l) (inks ls) (inks ms))

ink-snoc :
    (s : Text) (c : ℕ) (t : Text)
    → is_whitespace c ≡ false
    → ink (s ++ c ∷ []) ++ t ≡ ink s ++ c ∷ t
ink-snoc s c t n =
    let one : ink (c ∷ []) ≡ c ∷ [] = rw n refl in
    ap (λ u. u ++ t) (ink-append s (c ∷ []) ∙ ap (λ u. ink s ++ u) one)
    ∙ append_assoc (ink s) (c ∷ []) t

pub inks-words_from : (cur s : Text) → inks (words_from cur s) ≡ ink cur ++ ink s
unfolding words_from
inks-words_from [] [] = refl
inks-words_from (d ∷ cur) [] = refl
inks-words_from [] (c ∷ s) = elim (Bool-cases (is_whitespace c)) [
  | inl b ↦ rw (words_from, b) (inks-words_from [] s)
  | inr n ↦ rw (words_from, n) (inks-words_from (c ∷ []) s ∙ rw n refl)
]
inks-words_from (d ∷ cur) (c ∷ s) = elim (Bool-cases (is_whitespace c)) [
  | inl b ↦ rw (words_from, b) (ap (λ t. ink (d ∷ cur) ++ t) (inks-words_from [] s))
  | inr n ↦
      rw (words_from, n) (inks-words_from ((d ∷ cur) ++ c ∷ []) s ∙ ink-snoc (d ∷ cur) c (ink s) n)
]

pub append_take-drop : (n : ℕ) (s : Text) → take n s ++ drop n s ≡ s
append_take-drop zero s = refl
append_take-drop (suc n) [] = refl
append_take-drop (suc n) (c ∷ s) = ap (λ t. c ∷ t) (append_take-drop n s)

pub length-take : (n : ℕ) (s : Text) → n ≤ length s → length (take n s) ≡ n
length-take zero s h = refl
length-take (suc n) [] h = absurd (omega arith)
length-take (suc n) (c ∷ s) h = omega (arith, length-take n s (omega arith))

pub All-append : (P : Text → Type 0) (ls ms : List Text) → All P ls → All P ms → All P (ls ++ ms)
All-append P [] ms h k = k
All-append P (l ∷ ls) ms (h, hs) k = (h, All-append P ls ms hs k)

abbrev pub Fits : ℕ → Text → Type 0
Fits cols l = (1 ≤ length l) × (length l ≤ cols)

pub length-drop : (n : ℕ) (s : Text) → length (drop n s) ≡ length s - n
length-drop zero s = omega arith
length-drop (suc n) [] = omega arith
length-drop (suc n) (c ∷ s) = omega (arith, length-drop n s)

-- One line more.
pub inks-snoc : (ls : List Text) (l : Text) → inks (ls ++ l ∷ []) ≡ inks ls ++ ink l
inks-snoc ls l = inks-append ls (l ∷ []) ∙ ap (λ t. inks ls ++ t) (append-nil (ink l))

pub more_line :
    (ls : List Text) (l cur : Text)
    → cur ≡ []
    → inks (ls ++ l ∷ []) ++ ink cur ≡ (inks ls ++ ink cur) ++ ink l
more_line ls l cur e = rw e (
    append-nil (inks (ls ++ l ∷ []))
    ∙ inks-snoc ls l
    ∙ ap (λ t. t ++ ink l) (sym (append-nil (inks ls))))
