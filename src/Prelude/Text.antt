-- ===== src/Prelude/Text.antt =====
-- Rust strings and characters, as lists of code points, and what the code uses of `str` and `char`.
use Prim.Native.Nat.{ℕ, ◌-◌}
use Prim.Native.Char.{code}
use Prim.Native.String.{String}
use mathlib.Core.Path.{◌≡◌, refl, ap, sym, ◌∙◌, subst}
use mathlib.Core.Bool.{Bool, true, false, ◌&&◌, ◌||◌}
use mathlib.Core.List.{List, [], ◌∷◌, ◌++◌, reverse, reverse-append, reverse-reverse}
use native.Mathlib.Omega.{arith}
use taskologic.Prelude.Tests.{leb, ◌==◌, if◌then◌else◌, Bool-cases}
use mathlib.Core.Logic.{inl, inr}

abbrev pub Text : Type 0
Text = List ℕ

-- A literal of the source.
abbrev pub text : String → Text
text String.[] = []
text (String.◌∷◌ c s) = code c ∷ text s

-- `char::is_whitespace`: the code points with the property White_Space.
unfoldable pub is_whitespace : ℕ → Bool
is_whitespace c =
    (leb 9 c && leb c 13)
    || c == 32
    || c == 0x85
    || c == 0xa0
    || c == 0x1680
    || (leb 0x2000 c && leb c 0x200a)
    || c == 0x2028
    || c == 0x2029
    || c == 0x202f
    || c == 0x205f
    || c == 0x3000

pub trim_start : Text → Text
trim_start [] = []
trim_start (c ∷ s) = let rest = trim_start s in if is_whitespace c then rest else c ∷ s

-- `str::trim`
unfoldable pub trim : Text → Text
unfolding trim_start is_whitespace
trim s = reverse (trim_start (reverse (trim_start s)))

-- `char::to_ascii_uppercase`
unfoldable pub to_ascii_uppercase : ℕ → ℕ
to_ascii_uppercase c = if leb b'a' c && leb c b'z' then c - 32 else c

-- `==` on strings
abbrev pub text_eq : Text → Text → Bool
text_eq [] [] = true
text_eq [] (d ∷ t) = false
text_eq (c ∷ s) [] = false
text_eq (c ∷ s) (d ∷ t) = c == d && text_eq s t

pub text_eq_refl : (s : Text) → text_eq s s ≡ true
text_eq_refl [] = refl
text_eq_refl (c ∷ s) = ground (arith, text_eq_refl s)

pub text_eq_sound : (s t : Text) → text_eq s t ≡ true → s ≡ t
text_eq_sound [] [] h = refl
text_eq_sound [] (d ∷ t) h = cc
text_eq_sound (c ∷ s) [] h = cc
text_eq_sound (c ∷ s) (d ∷ t) h = ground (arith, text_eq_sound s t)

-- A text that begins and ends with another character than a blank is trimmed already.
pub trim_self :
    (c d : ℕ) (s : Text)
    → is_whitespace c ≡ false
    → is_whitespace d ≡ false
    → trim (c ∷ s ++ d ∷ []) ≡ c ∷ s ++ d ∷ []
unfolding trim
trim_self c d s hc hd = rw hc (
    rw (reverse-append (c ∷ s) (d ∷ []), hd)
      (ap reverse (sym (reverse-append (c ∷ s) (d ∷ []))) ∙ reverse-reverse (c ∷ s ++ d ∷ [])))

-- A text that begins with another character than a blank is not blank.
trim_start-snoc :
    (s : Text) (c : ℕ)
    → is_whitespace c ≡ false
    → (a : ℕ) × (t : Text) × (trim_start (s ++ c ∷ []) ≡ a ∷ t)
unfolding trim_start
trim_start-snoc [] c h = (c, [], rw h refl)
trim_start-snoc (b ∷ s) c h = elim (Bool-cases (is_whitespace b)) [
  | inl blank ↦ let (a, t, e) = trim_start-snoc s c h in (a, t, rw blank e)
  | inr other ↦ (b, s ++ c ∷ [], rw other refl)
]

snoc-not_empty : (s : Text) (c : ℕ) → text_eq (s ++ c ∷ []) [] ≡ false
snoc-not_empty [] c = refl
snoc-not_empty (b ∷ s) c = refl

pub trim-not_empty :
    (c : ℕ) (s : Text) → is_whitespace c ≡ false → text_eq (trim (c ∷ s)) [] ≡ false
unfolding trim trim_start
trim-not_empty c s h =
    let (a, t, e) = trim_start-snoc (reverse s) c h in
    rw (h, reverse-append (c ∷ []) s, e)
      (subst (λ r. text_eq r [] ≡ false) (sym (reverse-append (a ∷ []) t))
        (snoc-not_empty (reverse t) a))
