-- ===== src/Question/Answers.antt =====
-- The answers a question takes, by their text and by the codes printed for them.
use taskologic.Prelude.{
  ℕ, zero, suc, ◌+◌, ◌-◌, ◌≤◌, min, ◌≡◌, refl, subst, some, false, List, [], ◌∷◌, arith,
}
use taskologic.Prelude.Lists.{length, get_elem?, get_elem?-lt, any, find}
use taskologic.Prelude.Result.{ok, >>_iff}
use taskologic.Prelude.Text.{Text, trim, text_eq, text_eq_refl}
use taskologic.Barcode.{max_choices}
use taskologic.Question.{
  Question, QuestionKind, yes_no, choices, yes_text, no_text, answers, answers_of, fold_case,
  canonical, barcode_action, barcode_action_of, answer_for, answer_for_kind, validate_default,
  answers_loop, validate_kind, validate,
}

validate_kind-choices :
    (to_lowercase : Text → Text) (v : List Text)
    → validate_kind to_lowercase (choices v) ≡ ok tt
    → (length v ≤ max_choices) × (answers_loop to_lowercase [] v ≡ ok tt)
unfolding validate_kind
validate_kind-choices to_lowercase v h = ground arith

pub kind-validate :
    (to_lowercase : Text → Text) (q : Question)
    → validate to_lowercase q ≡ ok tt
    → validate_kind to_lowercase q.kind ≡ ok tt
unfolding validate
kind-validate to_lowercase q h =
    ((>>_iff (validate_kind to_lowercase q.kind) (validate_default to_lowercase q q.default)).0
      (ground arith)).0

-- One round of the loop that succeeds.
answers_loop-cons :
    (to_lowercase : Text → Text) (seen v : List Text) (b : Text)
    → answers_loop to_lowercase seen (b ∷ v) ≡ ok tt
    → (any (λ s. text_eq s (fold_case to_lowercase b)) seen ≡ false)
      × (answers_loop to_lowercase (fold_case to_lowercase b ∷ seen) v ≡ ok tt)
unfolding answers_loop
answers_loop-cons to_lowercase seen v b h = ground arith

-- An answer is the first with its key.
answers_loop-find :
    (to_lowercase : Text → Text) (seen v : List Text) (i : ℕ) (a : Text)
    → answers_loop to_lowercase seen v ≡ ok tt
    → get_elem? v i ≡ some a
    → (find (λ b. text_eq (fold_case to_lowercase b) (fold_case to_lowercase a)) v ≡ some a)
      × (any (λ s. text_eq s (fold_case to_lowercase a)) seen ≡ false)
answers_loop-find to_lowercase seen [] i a h e = absurd (cc)
answers_loop-find to_lowercase seen (b ∷ v) zero a h e =
    let same : b ≡ a = ground arith in
    (
      subst
          (λ t.
            find (λ b. text_eq (fold_case to_lowercase b) (fold_case to_lowercase t)) (b ∷ v)
            ≡ some t)
          same (rw (text_eq_refl (fold_case to_lowercase b)) refl),
      subst (λ t. any (λ s. text_eq s (fold_case to_lowercase t)) seen ≡ false) same
          ((answers_loop-cons to_lowercase seen v b h).0),
    )
answers_loop-find to_lowercase seen (b ∷ v) (suc i) a h e =
    let rest =
      answers_loop-find to_lowercase (fold_case to_lowercase b ∷ seen) v i a
        ((answers_loop-cons to_lowercase seen v b h).1) e in
    ground (arith, rest)

fold_yes :
    (to_lowercase : Text → Text)
    → to_lowercase yes_text ≡ yes_text
    → fold_case to_lowercase yes_text ≡ yes_text
unfolding trim
fold_yes to_lowercase h = h

fold_no :
    (to_lowercase : Text → Text)
    → to_lowercase no_text ≡ no_text
    → fold_case to_lowercase no_text ≡ no_text
unfolding trim
fold_no to_lowercase h = h

pred : (i : ℕ) → suc i - 1 ≡ i
pred i = omega arith

module _ (to_lowercase : Text → Text) (low_yes : to_lowercase yes_text ≡ yes_text)
    (low_no : to_lowercase no_text ≡ no_text) where
  find_kind :
      (k : QuestionKind) (i : ℕ) (a : Text)
      → validate_kind to_lowercase k ≡ ok tt
      → get_elem? (answers_of k) i ≡ some a
      → find (λ b. text_eq (fold_case to_lowercase b) (fold_case to_lowercase a)) (answers_of k)
        ≡ some a
  find_kind yes_no zero a h e =
      let same : yes_text ≡ a = ground arith in
      subst
        (λ t.
          find (λ b. text_eq (fold_case to_lowercase b) (fold_case to_lowercase t))
            (yes_text ∷ no_text ∷ [])
          ≡ some t)
        same (rw (text_eq_refl (fold_case to_lowercase yes_text)) refl)
  find_kind yes_no (suc zero) a h e =
      let same : no_text ≡ a = ground arith in
      subst
        (λ t.
          find (λ b. text_eq (fold_case to_lowercase b) (fold_case to_lowercase t))
            (yes_text ∷ no_text ∷ [])
          ≡ some t)
        same (rw (fold_yes to_lowercase low_yes, fold_no to_lowercase low_no) refl)
  find_kind yes_no (suc (suc i)) a h e = absurd (cc)
  find_kind (choices v) i a h e =
      (answers_loop-find to_lowercase [] v i a (validate_kind-choices to_lowercase v h).1 e).0

  code_kind :
      (k : QuestionKind) (i : ℕ) (a : Text)
      → validate_kind to_lowercase k ≡ ok tt
      → get_elem? (answers_of k) i ≡ some a
      → answer_for_kind k (barcode_action_of k i) ≡ some a
  code_kind yes_no zero a h e = e
  code_kind yes_no (suc zero) a h e = e
  code_kind yes_no (suc (suc i)) a h e = absurd (cc)
  code_kind (choices v) i a h e =
      let (small, _) = validate_kind-choices to_lowercase v h in
      let lt = get_elem?-lt v i a e in
      let same : min (i + 1) max_choices ≡ suc i = ground arith in rw same (ground (arith, pred i))

  -- For a valid question the code printed for its i-th answer is read as the i-th answer, and that
  -- text, given as an answer, is taken as itself; lower case leaves `yes` and `no` as they are.
  pub canonical-answer_for :
      (q : Question) (i : ℕ) (a : Text)
      → validate to_lowercase q ≡ ok tt
      → get_elem? (answers q) i ≡ some a
      → (answer_for q (barcode_action q i) ≡ some a) × (canonical to_lowercase q a ≡ some a)
  unfolding answer_for barcode_action canonical
  canonical-answer_for q i a h e =
      let k = kind-validate to_lowercase q h in (code_kind q.kind i a k e, find_kind q.kind i a k e)
