-- ===== src/Control/Turns.antt =====
-- control.rs: the turns that the model gives to the loop of `parse` are enough, on every body.
use taskologic.Prelude.{
  ℕ, zero, suc, ◌+◌, ◌<◌, ◌≡◌, refl, ap, inl, inr, none, some, List, [], ◌∷◌, arith,
}
use taskologic.Prelude.Tests.{◌==◌, Bool-cases, Option-cases}
use taskologic.Prelude.Lists.{length}
use taskologic.Prelude.Text.{Text}
use taskologic.Prelude.Strings.{strip_prefix}
use taskologic.Control.{Control, text_intro}
use taskologic.Control.Parse.{Outcome, parsed, bind, cut_join, parse_one, parse_rest}

length-cut_join : (s token rest : Text) → cut_join s ≡ some (token, rest) → length rest < length s
length-cut_join [] token rest e = cc
length-cut_join (c ∷ s) token rest e = elim (Bool-cases (c == b'/')) [
  | inl j ↦ let w : some ([], s) ≡ some (token, rest) = rw j at e in ground (arith, w)
  | inr j ↦ elim (Option-cases (cut_join s)) [
    | inl n ↦ cc (rw (j, n) at e)
    | inr ((t, r), k) ↦
        let less = length-cut_join s t r k in
        let w : some (c ∷ t, r) ≡ some (token, rest) = rw (j, k) at e in ground (arith, w, less)
  ]
]

-- A turn that goes on with what follows the first `/`.
abbrev pub go_on : Text → Outcome (List Control) → Outcome (List Control)
go_on token rest = bind (parse_one token) (λ c. bind rest (λ cs. parsed (c ∷ cs)))

turns_enough : (m n : ℕ) (s : Text) → length s < m → length s < n → parse_rest m s ≡ parse_rest n s
unfolding parse_rest
turns_enough zero n s h k = absurd (omega arith)
turns_enough (suc m) zero s h k = absurd (omega arith)
turns_enough (suc m) (suc n) s h k = elim (Option-cases (strip_prefix text_intro s)) [
  | inr (t, e) ↦ rw (parse_rest, e) refl
  | inl e ↦ elim (Option-cases (cut_join s)) [
    | inl j ↦ rw (parse_rest, e, j) refl
    | inr ((token, rest), j) ↦
        let less = length-cut_join s token rest j in
        rw (parse_rest, e, j) (ap (go_on token) (turns_enough m n rest (omega arith) (omega arith)))
  ]
]

abbrev pub loop : Text → Outcome (List Control)
loop rest = parse_rest (length rest + 1) rest

-- With more turns than there are characters the loop does on every body what the code does: free text
-- and a token without a `/` behind it are the last, and after any other token the same loop goes on
-- with what follows the `/`. That it has no turn left never shows.
pub parse_rest_lem :
    (turns : ℕ) (rest : Text)
    → length rest < turns
    → parse_rest turns rest ≡ elim (strip_prefix text_intro rest) [
      | some t ↦ bind (parse_one rest) (λ c. parsed (c ∷ []))
      | none ↦ elim (cut_join rest) [
        | none ↦ bind (parse_one rest) (λ c. parsed (c ∷ []))
        | some (token, rest') ↦ go_on token (loop rest')
      ]
    ]
unfolding parse_rest
parse_rest_lem zero rest h = absurd (omega arith)
parse_rest_lem (suc turns) rest h = elim (Option-cases (strip_prefix text_intro rest)) [
  | inr (t, e) ↦ rw (parse_rest, e) refl
  | inl e ↦ elim (Option-cases (cut_join rest)) [
    | inl j ↦ rw (parse_rest, e, j) refl
    | inr ((token, rest'), j) ↦
        let less = length-cut_join rest token rest' j in
        rw (parse_rest, e, j)
          (ap (go_on token)
            (turns_enough turns (length rest' + 1) rest' (omega arith) (omega arith)))
  ]
]
