-- ===== src/Control/Ascii.antt =====
-- control.rs: `parse` on a body of ASCII characters returns.
use taskologic.Prelude.{
  ℕ, zero, suc, ◌+◌, ◌<◌, ◌≡◌, ◌≢◌, refl, ap, inl, inr, some, Bool, true, [], ◌∷◌, ◌++◌, map, arith,
}
use taskologic.Prelude.Tests.{◌==◌, ltb, Bool-cases, Option-cases}
use taskologic.Prelude.Lists.{all, length}
use taskologic.Prelude.Text.{Text, text_eq, to_ascii_uppercase, trim}
use taskologic.Prelude.Strings.{strip_prefix}
use taskologic.Control.{text_intro}
use taskologic.Control.Parse.{parsed, panics, bind, cut_join, parse_one, parse_rest, parse}
use taskologic.Control.Panics.{Quiet, bind-Quiet, parsed-Quiet, CutsToken, parse_one-panics_iff}

abbrev pub is_ascii : ℕ → Bool
is_ascii c = ltb c 0x80

upper-ascii : (s : Text) → all is_ascii s ≡ true → all is_ascii (map to_ascii_uppercase s) ≡ true
unfolding to_ascii_uppercase
upper-ascii [] h = refl
upper-ascii (c ∷ s) h = ground (arith, upper-ascii s)

last-ascii : (s : Text) (c : ℕ) → all is_ascii (s ++ c ∷ []) ≡ true → c < 0x80
last-ascii [] c h = ground arith
last-ascii (b ∷ s) c h = last-ascii s c (ground (arith, h))

ascii-whole : (t : Text) → all is_ascii t ≡ true → CutsToken t → ⊥
ascii-whole [] h k = k
ascii-whole (a ∷ []) h k = k
ascii-whole (a ∷ b ∷ rest) h (_, _, (s, c, e, w)) =
    omega (arith, last-ascii s c (ground (arith, ap (all is_ascii) e)))

one-ascii : (token : Text) → all is_ascii token ≡ true → Quiet (parse_one token)
one-ascii token h = λ p.
    ascii-whole (map to_ascii_uppercase token) (upper-ascii token h)
      ((parse_one-panics_iff token).0 p)

cut_join-parts :
    (s token rest : Text)
    → all is_ascii s ≡ true
    → cut_join s ≡ some (token, rest)
    → (all is_ascii token ≡ true) × (all is_ascii rest ≡ true) × (length rest < length s)
cut_join-parts [] token rest h e = cc
cut_join-parts (c ∷ s) token rest h e = elim (Bool-cases (c == b'/')) [
  | inl j ↦ let w : some ([], s) ≡ some (token, rest) = rw j at e in ground (arith, w, h)
  | inr j ↦ elim (Option-cases (cut_join s)) [
    | inl n ↦ cc (rw (j, n) at e)
    | inr ((t, r), k) ↦
        let (x, y, z) = cut_join-parts s t r (ground (arith, h)) k in
        let w : some (c ∷ t, r) ≡ some (token, rest) = rw (j, k) at e in
        ground (arith, w, x, y, z, h)
  ]
]

rest-ascii :
    (turns : ℕ) (s : Text) → all is_ascii s ≡ true → length s < turns → Quiet (parse_rest turns s)
unfolding parse_rest
rest-ascii zero s h l = absurd (omega arith)
rest-ascii (suc turns) s h l = elim (Option-cases (strip_prefix text_intro s)) [
  | inr (t, e) ↦ λ p. last_one s h (rw (parse_rest, e) at p)
  | inl e ↦ elim (Option-cases (cut_join s)) [
    | inl n ↦ λ p. last_one s h (rw (parse_rest, e, n) at p)
    | inr ((token, rest), k) ↦
        let (x, y, z) = cut_join-parts s token rest h k in
        λ p.
          bind-Quiet (parse_one token) _ (one-ascii token x)
            (λ c.
              bind-Quiet (parse_rest turns rest) _ (rest-ascii turns rest y (omega arith))
                (λ cs. parsed-Quiet _))
            (rw (parse_rest, e, k) at p)
  ]
]
  where
    last_one :
        (s : Text) → all is_ascii s ≡ true → Quiet (bind (parse_one s) (λ c. parsed (c ∷ [])))
    last_one s h = bind-Quiet (parse_one s) _ (one-ascii s h) (λ c. parsed-Quiet _)

-- `parse` never panics on a body of ASCII characters, whatever it spells: it returns commands or an
-- error. The turns that the model gives to its loop are enough.
pub parse-ascii : (body : Text) → all is_ascii body ≡ true → parse body ≢ panics
unfolding parse
parse-ascii body h = elim (Bool-cases (text_eq (trim body) [])) [
  | inl blank ↦ λ p. cc (rw (parse, blank) at p)
  | inr other ↦ λ p. rest-ascii (length body + 1) body h (omega arith) (rw (parse, other) at p)
]
