-- ===== src/Control/Cuts.antt =====
-- Cuts of a string at a byte offset: where the offset stands between characters, and where inside one.
use taskologic.Prelude.{
  ℕ, zero, suc, ◌+◌, ◌-◌, ◌≤◌, ◌<◌, ◌≡◌, ◌⊎◌, refl, ap, ◌∙◌, inl, inr, true, false, Option, none,
  some, [], ◌∷◌, ◌++◌, arith,
}
use taskologic.Prelude.Tests.{ltb}
use taskologic.Prelude.Text.{Text}
use taskologic.Prelude.Strings.{len_utf8, byte_len, in_front, split_at}

-- The characters in front of what was cut.
abbrev pub in_fronts : Text → Option (Text × Text) → Option (Text × Text)
in_fronts [] o = o
in_fronts (c ∷ s) o = in_front c (in_fronts s o)

pub in_fronts-some : (s t u : Text) → in_fronts s (some (t, u)) ≡ some (s ++ t, u)
in_fronts-some [] t u = refl
in_fronts-some (c ∷ s) t u = ap (in_front c) (in_fronts-some s t u)

pub in_fronts-none : (s : Text) → in_fronts s none ≡ none
in_fronts-none [] = refl
in_fronts-none (c ∷ s) = ap (in_front c) (in_fronts-none s)

pub len_utf8-ge : (c : ℕ) → 1 ≤ len_utf8 c
len_utf8-ge c = ground arith

split_at-cons :
    (c : ℕ) (s : Text) (n : ℕ)
    → len_utf8 c ≤ n
    → split_at (c ∷ s) n ≡ in_front c (split_at s (n - len_utf8 c))
split_at-cons c s zero h = absurd (omega (arith, len_utf8-ge c))
split_at-cons c s (suc n) h =
    let room : ltb (suc n) (len_utf8 c) ≡ false = grind arith in rw room refl

split_at-inside : (c n : ℕ) → 1 ≤ n → n < len_utf8 c → split_at (c ∷ []) n ≡ none
split_at-inside c zero h k = absurd (omega arith)
split_at-inside c (suc n) h k =
    let inside : ltb (suc n) (len_utf8 c) ≡ true = grind arith in rw inside refl

-- A cut past some characters is a cut of what follows them.
pub split_at-past :
    (s t : Text) (n : ℕ) → split_at (s ++ t) (byte_len s + n) ≡ in_fronts s (split_at t n)
split_at-past [] t n = ap (split_at t) (omega arith)
split_at-past (c ∷ s) t n =
    let less : byte_len (c ∷ s) + n - len_utf8 c ≡ byte_len s + n = omega arith in
    split_at-cons c (s ++ t) (byte_len (c ∷ s) + n) (omega arith)
    ∙ ap (λ k. in_front c (split_at (s ++ t) k)) less
    ∙ ap (in_front c) (split_at-past s t n)

pub byte_len-append : (s t : Text) → byte_len (s ++ t) ≡ byte_len s + byte_len t
byte_len-append [] t = omega arith
byte_len-append (c ∷ s) t = omega (arith, byte_len-append s t)

-- The last byte is cut off just where the last character is ASCII.
cut_last-place : (s : Text) (c : ℕ) → byte_len (s ++ c ∷ []) - 1 ≡ byte_len s + (len_utf8 c - 1)
cut_last-place s c = omega (arith, byte_len-append s (c ∷ []), len_utf8-ge c)

pub cut_last-ascii :
    (s : Text) (c : ℕ)
    → c < 0x80
    → split_at (s ++ c ∷ []) (byte_len (s ++ c ∷ []) - 1) ≡ some (s ++ [], c ∷ [])
cut_last-ascii s c h =
    let byte : len_utf8 c - 1 ≡ 0 = ground arith in
    ap (split_at (s ++ c ∷ [])) (cut_last-place s c ∙ ap (λ n. byte_len s + n) byte)
    ∙ split_at-past s (c ∷ []) 0
    ∙ in_fronts-some s [] (c ∷ [])

pub cut_last-wide :
    (s : Text) (c : ℕ) → 0x80 ≤ c → split_at (s ++ c ∷ []) (byte_len (s ++ c ∷ []) - 1) ≡ none
cut_last-wide s c h =
    ap (split_at (s ++ c ∷ [])) (cut_last-place s c)
    ∙ split_at-past s (c ∷ []) (len_utf8 c - 1)
    ∙ ap (in_fronts s)
        (split_at-inside c (len_utf8 c - 1) (ground arith) (omega (arith, len_utf8-ge c)))
    ∙ in_fronts-none s

-- A text is empty or has a last character.
pub snoc_view : (s : Text) → (s ≡ []) ⊎ ((t : Text) × (c : ℕ) × (s ≡ t ++ c ∷ []))
snoc_view [] = inl refl
snoc_view (c ∷ s) = elim (snoc_view s) [
  | inl e ↦ inr ([], c, ap (λ t. c ∷ t) e)
  | inr (t, d, e) ↦ inr (c ∷ t, d, ap (λ u. c ∷ u) e)
]
