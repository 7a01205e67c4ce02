-- ===== src/Barcode/Check/Swap.antt =====
-- The adjacent transpositions that the check character misses.
use mathlib.Core.Option
use taskologic.Prelude.{
  ℕ, ◌+◌, ◌%◌, ◌<◌, ◌≡◌, ◌≢◌, false, ◌⊎◌, ◌↔◌, ap, sym, refl, ◌∙◌, Option, some, true, List, [],
  ◌∷◌, ◌++◌, foldl, arith, inl, inr,
}
use taskologic.Prelude.Tests.{◌==◌, ==_iff, Bool-cases}
use taskologic.Prelude.Text.{Text}
use taskologic.Ids.{base36_value}
use taskologic.Ids.ShortId.Laws.{base36_value-lt}
use taskologic.Barcode.Check.{checksum_step, checksum, base36_values, verify_check}
use taskologic.Barcode.Check.Laws.{
  checksum_step-lt, run-injective, checksum_step-swap, checksum_step-meet, checksum-append,
  checksum-lt, base36_values-cons, base36_values-uncons, base36_values-append,
}
use taskologic.Barcode.Check.Errors.{parts, verify_check-middle}

-- The checksum after a text.
abbrev pub state_after : Text → Option ℕ
state_after s = Option.map checksum (base36_values s)

-- After `pre`, one of the characters leads to state 18 and the other to state 19.
abbrev pub Confuses : Text → ℕ → ℕ → Type 0
Confuses pre a b =
    ((state_after (pre ++ a ∷ []) ≡ some 18) × (state_after (pre ++ b ∷ []) ≡ some 19))
    ⊎ ((state_after (pre ++ a ∷ []) ≡ some 19) × (state_after (pre ++ b ∷ []) ≡ some 18))

state_after-snoc :
    (pre : Text) (c v : ℕ) (ps : List ℕ)
    → base36_values pre ≡ some ps
    → base36_value c ≡ some v
    → state_after (pre ++ c ∷ []) ≡ some (checksum_step (checksum ps) v)
state_after-snoc pre c v ps p q =
    let one = base36_values-cons c v [] [] q (unfold base36_values in refl) in
    ap (Option.map checksum) (base36_values-append pre (c ∷ []) ps (v ∷ []) p one)
    ∙ ap some (checksum-append ps (v ∷ []))

-- One value leads from the state to 18, and the other to 19.
abbrev Meets : ℕ → ℕ → ℕ → Type 0
Meets s v w =
    ((checksum_step s v ≡ 18) × (checksum_step s w ≡ 19))
    ⊎ ((checksum_step s v ≡ 19) × (checksum_step s w ≡ 18))

Confuses-iff :
    (pre : Text) (a b v w : ℕ) (ps : List ℕ)
    → base36_values pre ≡ some ps
    → base36_value a ≡ some v
    → base36_value b ≡ some w
    → Confuses pre a b ↔ Meets (checksum ps) v w
Confuses-iff pre a b v w ps p q q' =
    rw (state_after-snoc pre a v ps p q, state_after-snoc pre b w ps p q') (ground arith)

module _ (pre post : Text) (a b v w : ℕ) (ps qs : List ℕ) (p : base36_values pre ≡ some ps)
    (q : base36_value a ≡ some v) (q' : base36_value b ≡ some w)
    (r : base36_values post ≡ some qs) where
  abbrev after : ℕ → ℕ → ℕ
  after x y = checksum_step (checksum_step (checksum ps) x) y

  verify_check-two : verify_check (pre ++ b ∷ a ∷ post) ≡ (foldl checksum_step (after w v) qs == 1)
  verify_check-two =
      verify_check-middle pre (a ∷ post) b w ps (v ∷ qs) p q' (base36_values-cons a v post qs q r)

  meeting : Confuses pre a b → after v w ≡ after w v
  meeting c = elim ((Confuses-iff pre a b v w ps p q q').0 c) [
    | inl (x, y) ↦
        checksum_step-meet (checksum ps) v w (checksum-lt ps) (base36_value-lt a v q)
          (base36_value-lt b w q') x y
    | inr (x, y) ↦ sym (
        checksum_step-meet (checksum ps) w v (checksum-lt ps) (base36_value-lt b w q')
          (base36_value-lt a v q) y x)
  ]

  swapped_iff :
      v ≢ w
      → foldl checksum_step (after v w) qs ≡ 1
      → (verify_check (pre ++ b ∷ a ∷ post) ≡ true) ↔ Confuses pre a b
  swapped_iff n k = (
    λ h.
        let k' = (==_iff _ 1).0 (sym verify_check-two ∙ h) in
        let meet =
          run-injective qs (after v w) (after w v) (checksum_step-lt _ w) (checksum_step-lt _ v)
            (k ∙ sym k') in
        (Confuses-iff pre a b v w ps p q q').1 (
          checksum_step-swap (checksum ps) v w (checksum-lt ps) (base36_value-lt a v q)
            (base36_value-lt b w q') n meet),
    λ c.
        verify_check-two
        ∙ (==_iff _ 1).1 (ap (λ s. foldl checksum_step s qs) (sym (meeting c)) ∙ k),
  )

-- Swapping two neighbours of different values in a text that verifies goes unseen exactly when the
-- states that they lead to after the text before them are 18 and 19, in one order or the other.
pub transposition_missed_iff :
    (pre post : Text) (a b : ℕ)
    → base36_value a ≢ base36_value b
    → verify_check (pre ++ a ∷ b ∷ post) ≡ true
    → (verify_check (pre ++ b ∷ a ∷ post) ≡ true) ↔ Confuses pre a b
transposition_missed_iff pre post a b n h =
    let (ps, v, qs', p, q, r, k) = parts pre (b ∷ post) a h in
    let (w, qs, q', r', e) = base36_values-uncons b post qs' r in
    swapped_iff pre post a b v w ps qs p q q' r' (λ d. n (q ∙ ap some d ∙ sym q')) (rw e at k)

-- States 18 and 19 are reached from one state by values that are neighbours, round the end of the
-- alphabet too.
neighbours : (s v w : ℕ) → v < 36 → w < 36 → (v + 1) % 36 ≢ w → (w + 1) % 36 ≢ v → ¬ Meets s v w
unfolding checksum_step
neighbours s v w hv hw n n' c = ground arith

-- Swapping two neighbours whose values differ, and are not one apart round the alphabet, is caught.
pub transposition_caught :
    (pre post : Text) (a b v w : ℕ)
    → base36_value a ≡ some v
    → base36_value b ≡ some w
    → v ≢ w
    → (v + 1) % 36 ≢ w
    → (w + 1) % 36 ≢ v
    → verify_check (pre ++ a ∷ b ∷ post) ≡ true
    → verify_check (pre ++ b ∷ a ∷ post) ≡ false
transposition_caught pre post a b v w q q' d n n' h =
    elim (Bool-cases (verify_check (pre ++ b ∷ a ∷ post))) [
      | inr e ↦ e
      | inl e ↦
          let (ps, _, _, p, _, _, _) = parts pre (b ∷ post) a h in
          let differ = λ (k : base36_value a ≡ base36_value b). d (cc) in
          let c = (transposition_missed_iff pre post a b differ h).0 e in
          absurd (
            neighbours (checksum ps) v w (base36_value-lt a v q) (base36_value-lt b w q') n n'
              ((Confuses-iff pre a b v w ps p q q').0 c))
    ]
