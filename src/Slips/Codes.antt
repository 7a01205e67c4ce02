-- ===== src/Slips/Codes.antt =====
-- print.rs and barcode.rs: the codes on a slip, scanned.
use taskologic.Prelude.{
  ℕ, zero, suc, ◌+◌, ◌≡◌, refl, ap, ◌∙◌, subst, none, some, false, List, [], ◌∷◌, ◌++◌, arith,
}
use taskologic.Prelude.Tests.{◌==◌, if-rule}
use taskologic.Prelude.Lists.{get_elem?}
use taskologic.Prelude.Result.{ok}
use taskologic.Prelude.Text.{Text, text}
use taskologic.Ids.ShortId.{IsShortId}
use taskologic.Barcode.{ScanAction, start_pause, IsCodable}
use taskologic.Barcode.Payload
use taskologic.Barcode.Payload.{ScanPayload, encode, IsPayload}
use taskologic.Barcode.Payload.Laws.{parse-encode}
use taskologic.Question.{
  Question, QuestionKind, yes_no, choices, answers, barcode_action, barcode_action_of, answer_for,
  validate, yes_text, no_text,
}
use taskologic.Question.Answers.{canonical-answer_for}
use taskologic.Task.{Task}
use taskologic.Slips.{
  Barcode, User, coded, barcode, labelled, in_order, answer_codes, question_of, barcodes_for,
}

-- A code that is read as its action on the task.
abbrev pub Reads : Task → Barcode → Type 0
Reads task code =
    Payload.parse code.payload ≡ ok (record { action = code.action; short_id = task.short_id })

barcode-Reads :
    (user : User) (task : Task) (action : ScanAction)
    → IsShortId task.short_id
    → IsCodable action
    → (code : Barcode) × (barcode user task action ≡ some code)
      × (code.action ≡ action)
      × Reads task code
unfolding barcode
barcode-Reads user task action h k =
    let p : ScanPayload = record { action = action; short_id = task.short_id } in
    let (t, e, r) = parse-encode p (record { id = h; codable = k }) in
    (
      record {
        action = action;
        payload = t;
        symbology = user.format;
        label = none;
        narrow = false;
      },
      ap (coded user action) e,
      refl,
      r,
    )

barcode_action-IsCodable : (q : Question) (i : ℕ) → IsCodable (barcode_action q i)
unfolding barcode_action
barcode_action-IsCodable q i = kind q.kind
  where
    kind : (k : QuestionKind) → IsCodable (barcode_action_of k i)
    kind yes_no = if-rule (i == 0) IsCodable tt tt
    kind (choices v) = (omega arith, omega arith)

-- The code of one answer.
abbrev pub IsAnswerCode : Task → Question → ℕ → Text → Barcode → Type 0
IsAnswerCode task q i a code =
    (code.action ≡ barcode_action q i)
    × (code.label ≡ some (text "scan to finish: " ++ a))
    × Reads task code

-- From the n-th answer on, each has its code at its place.
abbrev Covered : Task → Question → ℕ → List Text → List Barcode → Type 0
Covered task q n texts codes =
    (i : ℕ) (a : Text)
    → get_elem? texts i ≡ some a
    → (code : Barcode) × (get_elem? codes i ≡ some code) × IsAnswerCode task q (n + i) a code

Covered-cons :
    (task : Task) (q : Question) (n : ℕ) (a : Text) (rest : List Text) (code : Barcode)
    (codes : List Barcode)
    → IsAnswerCode task q n a code
    → Covered task q (n + 1) rest codes
    → Covered task q n (a ∷ rest) (code ∷ codes)
Covered-cons task q n a rest code codes h k zero b e =
    let same : a ≡ b = cc in
    let at : n ≡ n + 0 = omega arith in
    (
      code,
      refl,
      subst (λ c. IsAnswerCode task q (n + 0) c code) same
          (subst (λ m. IsAnswerCode task q m a code) at h),
    )
Covered-cons task q n a rest code codes h k (suc i) b e =
    let (c, g, r) = k i b e in
    let at : n + 1 + i ≡ n + suc i = omega arith in
    (c, g, subst (λ m. IsAnswerCode task q m b c) at r)

module _ (user : User) (task : Task) (q : Question) (h : IsShortId task.short_id) where
  -- The codes from the n-th answer on are all made.
  answer_codes-Covered :
      (n : ℕ) (texts : List Text)
      → (codes : List Barcode) × (answer_codes user task q n texts ≡ some codes)
        × Covered task q n texts codes
  unfolding answer_codes
  answer_codes-Covered n [] = ([], refl, λ i a e. absurd (cc))
  answer_codes-Covered n (a ∷ rest) =
      let (code, e, x, r) =
        barcode-Reads user task (barcode_action q n) h (barcode_action-IsCodable q n) in
      let (codes, es, all_read) = answer_codes-Covered (n + 1) rest in
      let label = text "scan to finish: " ++ a in
      let first : Barcode = record code { label = some label } in
      (
        first ∷ codes,
        ap (λ o. in_order (labelled label o) (answer_codes user task q (n + 1) rest)) e
            ∙ ap (in_order (some first)) es,
        Covered-cons task q n a rest first codes (x, refl, r) all_read,
      )

-- The slip of a task whose program asks a valid question carries, behind the code that starts it, one
-- code for each answer: the i-th is labelled with the i-th answer, scans as an action on this task,
-- and that action is read as the i-th answer. So scanning the code under an answer gives that answer.
-- Lower case leaves `yes` and `no` as they are.
pub barcodes_for-answer_for :
    (to_lowercase : Text → Text)
    → to_lowercase yes_text ≡ yes_text
    → to_lowercase no_text ≡ no_text
    → (user : User) (task : Task) (q : Question) → IsShortId task.short_id
    → question_of task.program ≡ some q
    → validate to_lowercase q ≡ ok tt
    → (first : Barcode) × (codes : List Barcode) × (barcodes_for user task ≡ some (first ∷ codes))
      × (first.action ≡ start_pause)
      × ((i : ℕ) (a : Text)
          → get_elem? (answers q) i ≡ some a
          → (code : Barcode) × (get_elem? codes i ≡ some code)
            × (code.label ≡ some (text "scan to finish: " ++ a))
            × Reads task code
            × (answer_for q code.action ≡ some a))
unfolding barcodes_for
barcodes_for-answer_for to_lowercase low_yes low_no user task q h e v =
    let (first, fe, fx, fr) = barcode-Reads user task start_pause h tt in
    let (codes, ce, covered) = answer_codes-Covered user task q h 0 (answers q) in
    (
      first,
      codes,
      rw (barcodes_for, e, fe, ce) refl,
      fx,
      λ i a g.
          let (code, k, (x, l, r)) = covered i a g in
          let (read, _) = canonical-answer_for to_lowercase low_yes low_no q i a v g in
          let at : 0 + i ≡ i = omega arith in
          (code, k, l, r, ap (answer_for q) (x ∙ ap (barcode_action q) at) ∙ read),
    )
