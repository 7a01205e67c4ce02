-- ===== src/Barcode/Check/Errors.antt =====
-- What the check character catches, and what it misses.

use taskologic.Prelude.{
  ℕ, ◌≡◌, ◌≢◌, refl, ap, sym, ◌∙◌, subst, Option, some, true, false, List, [], ◌∷◌, ◌++◌, foldl,
  arith, inl, inr,
}
use taskologic.Prelude.Tests.{◌==◌, ==_iff, Option-cases, Bool-cases}
use taskologic.Prelude.Text.{Text, to_ascii_uppercase}
use taskologic.Ids.{base36_value, base36_char}
use taskologic.Ids.ShortId.{digit}
use taskologic.Ids.ShortId.Laws.{base36_value-lt, base36_value-digit, base36_char-digit}
use taskologic.Ids.ShortId.Parse.{digit-upper}
use taskologic.Barcode.Check.{
  checksum_step, checksum, base36_values, check_value, check_char, verify_values, verify_check,
}
use taskologic.Barcode.Check.Laws.{
  checksum_step-lt, checksum_step-right_injective, run-injective, checksum-append, checksum-lt,
  checksum_step-check_value, check_value-lt, base36_values-cons, base36_values-uncons,
  base36_values-append, base36_values-inv,
}

-- A text with values verifies exactly when it is not empty and its checksum is 1.
verify_check-values :
    (s : Text) (vs : List ℕ) → base36_values s ≡ some vs → verify_check s ≡ verify_values vs
unfolding verify_check
verify_check-values s vs p = rw (p, verify_check) refl

verify_check-inv :
    (s : Text)
    → verify_check s ≡ true
    → (vs : List ℕ) × (base36_values s ≡ some vs) × (verify_values vs ≡ true)
unfolding verify_check
verify_check-inv s h = elim (Option-cases (base36_values s)) [
  | inl e ↦ absurd (ground arith)
  | inr (vs, e) ↦ (vs, e, ground arith)
]

verify_values-middle :
    (ps qs : List ℕ) (v : ℕ)
    → verify_values (ps ++ v ∷ qs) ≡ (foldl checksum_step (checksum_step (checksum ps) v) qs == 1)
verify_values-middle [] qs v = unfold checksum in refl
verify_values-middle (p ∷ ps) qs v = ap (λ n. n == 1) (checksum-append (p ∷ ps) (v ∷ qs))

-- The values around one character of a text that verifies.
pub parts :
    (pre post : Text) (c : ℕ)
    → verify_check (pre ++ c ∷ post) ≡ true
    → (ps : List ℕ) × (v : ℕ) × (qs : List ℕ) × (base36_values pre ≡ some ps)
      × (base36_value c ≡ some v)
      × (base36_values post ≡ some qs)
      × (foldl checksum_step (checksum_step (checksum ps) v) qs ≡ 1)
parts pre post c h =
    let (us, e, t) = verify_check-inv (pre ++ c ∷ post) h in
    let (ps, ws, p, r) = base36_values-inv pre (c ∷ post) us e in
    let (v, qs, q, s, k) = base36_values-uncons c post ws r in
    let all =
      base36_values-append pre (c ∷ post) ps (v ∷ qs) p (base36_values-cons c v post qs q s) in
    let at : verify_values (ps ++ v ∷ qs) ≡ true =
      sym (verify_check-values (pre ++ c ∷ post) (ps ++ v ∷ qs) all) ∙ h in
    (ps, v, qs, p, q, s, (==_iff _ _).0 (sym (verify_values-middle ps qs v) ∙ at))

-- The values of two texts that agree around a place.
some_eq : (o : Option (List ℕ)) (a b : List ℕ) → o ≡ some a → o ≡ some b → a ≡ b
some_eq o a b p q = cc

-- The other way: values around one character, and the checksum 1, make a text that verifies.
pub verify_check-middle :
    (pre post : Text) (c v : ℕ) (ps qs : List ℕ)
    → base36_values pre ≡ some ps
    → base36_value c ≡ some v
    → base36_values post ≡ some qs
    → verify_check (pre ++ c ∷ post) ≡ (foldl checksum_step (checksum_step (checksum ps) v) qs == 1)
verify_check-middle pre post c v ps qs p q r =
    verify_check-values (pre ++ c ∷ post) (ps ++ v ∷ qs)
      (base36_values-append pre (c ∷ post) ps (v ∷ qs) p (base36_values-cons c v post qs q r))
    ∙ verify_values-middle ps qs v

check_char-inv :
    (body : Text) (c : ℕ)
    → check_char body ≡ some c
    → (vs : List ℕ) × (base36_values body ≡ some vs)
      × (base36_char (check_value (checksum vs)) ≡ some c)
unfolding check_char
check_char-inv body c h = elim (Option-cases (base36_values body)) [
  | inl e ↦ absurd (ground arith)
  | inr (vs, e) ↦ (vs, e, ground arith)
]

pub check_char-values :
    (s : Text) (vs : List ℕ)
    → base36_values s ≡ some vs
    → check_char s ≡ base36_char (check_value (checksum vs))
unfolding check_char
check_char-values s vs e = rw (e, check_char) refl

digit_of_char : (v c : ℕ) → base36_char v ≡ some c → digit v ≡ c
unfolding digit
digit_of_char v c h = ground arith

-- The check character of a text completes it to one that verifies.
pub verify_check-check_char :
    (body : Text) (c : ℕ) → check_char body ≡ some c → verify_check (body ++ c ∷ []) ≡ true
verify_check-check_char body c h =
    let (vs, e, k) = check_char-inv body c h in
    let cs = checksum vs in
    let value : base36_value c ≡ some (check_value cs) =
      subst (λ d. base36_value d ≡ some (check_value cs)) (digit_of_char _ c k)
        (base36_value-digit (check_value cs) (check_value-lt cs)) in
    verify_check-middle body [] c (check_value cs) vs [] e value (unfold base36_values in refl)
    ∙ (==_iff _ 1).1 (checksum_step-check_value cs (checksum-lt vs))

-- A text that verifies no longer does once one character is replaced by one of another value, or
-- of none.
pub substitution_caught :
    (pre post : Text) (c d : ℕ)
    → base36_value d ≢ base36_value c
    → verify_check (pre ++ c ∷ post) ≡ true
    → verify_check (pre ++ d ∷ post) ≡ false
substitution_caught pre post c d n h = elim (Bool-cases (verify_check (pre ++ d ∷ post))) [
  | inr e ↦ e
  | inl e ↦
      let (ps, v, qs, p, q, r, k) = parts pre post c h in
      let (ps', w, qs', p', q', r', k') = parts pre post d e in
      let cs = checksum ps in
      let same : foldl checksum_step (checksum_step cs v) qs
          ≡ foldl checksum_step (checksum_step cs w) qs =
        k ∙ sym (rw (some_eq _ ps ps' p p', some_eq _ qs qs' r r') k') in
      let step =
        run-injective qs (checksum_step cs v) (checksum_step cs w) (checksum_step-lt cs v)
          (checksum_step-lt cs w) same in
      let value =
        checksum_step-right_injective cs v w (base36_value-lt c v q) (base36_value-lt d w q')
          step in
      absurd (n (q' ∙ sym (ap some value) ∙ sym q))
]

-- The only character in upper case that completes a text to one that verifies is its check
-- character.
pub check_char_unique :
    (s : Text) (c : ℕ)
    → to_ascii_uppercase c ≡ c
    → verify_check (s ++ c ∷ []) ≡ true
    → check_char s ≡ some c
check_char_unique s c u h =
    let (ps, v, qs, p, q, r, k) = parts s [] c h in
    let cs = checksum ps in
    let last : checksum_step cs v ≡ 1 =
      subst (λ vs. foldl checksum_step (checksum_step cs v) vs ≡ 1)
        (some_eq _ qs [] r (unfold base36_values in refl)) k in
    let value : v ≡ check_value cs =
      checksum_step-right_injective cs v (check_value cs) (base36_value-lt c v q)
        (check_value-lt cs) (last ∙ sym (checksum_step-check_value cs (checksum-lt ps))) in
    check_char-values s ps p
    ∙ base36_char-digit (check_value cs) (check_value-lt cs)
    ∙ ap some (ap digit (sym value) ∙ digit-upper c v q ∙ u)
