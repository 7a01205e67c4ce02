-- ===== src/Question.antt =====
-- crates/taskologic-core/src/program.rs: the question a program's step asks as its task finishes, and
-- how a task belongs to a run. `str::to_lowercase` is a parameter.
pub mod Answers
pub mod Tests
use taskologic.Prelude.{
  ℕ, suc, ◌+◌, ◌-◌, min, ◌≡◌, Option, none, some, Bool, true, false, not, ◌||◌, List, [], ◌∷◌,
}
use taskologic.Prelude.Tests.{◌==◌, ltb, if◌then◌else◌}
use taskologic.Prelude.Lists.{length, get_elem?, any, find}
use taskologic.Prelude.Result.{Check, ok, err, ◌>>◌}
use taskologic.Prelude.Text.{Text, text, trim, text_eq}
use taskologic.Ids.{RunId}
use taskologic.Board.{is_empty, is_some}
use taskologic.Barcode.{
  ScanAction, max_choices, start_pause, finish, yes_answer, no_answer, choice, finish_children,
}

pub data QuestionKind : Type 0 where
  yes_no : QuestionKind
  choices : List Text → QuestionKind

pub record Question : Type 0 where
  pub text : Text
  pub kind : QuestionKind
  pub default : Option Text

abbrev pub yes_text : Text
yes_text = text "yes"

abbrev pub no_text : Text
no_text = text "no"

abbrev pub answers_of : QuestionKind → List Text
answers_of yes_no = yes_text ∷ no_text ∷ []
answers_of (choices v) = v

abbrev pub answers : Question → List Text
answers q = answers_of q.kind

-- The two reasons why a question is refused carry a message in the source.
pub data QuestionError : Type 0 where
  needs_text between_two_and_eight empty_answer : QuestionError
  answer_twice default_not_an_answer : Text → QuestionError

-- `trim().to_lowercase()`, and the answer of `canonical` among the answers.
abbrev pub fold_case : (Text → Text) → Text → Text
fold_case to_lowercase s = to_lowercase (trim s)

unfoldable pub canonical : (Text → Text) → Question → Text → Option Text
canonical to_lowercase q s =
    find (λ a. text_eq (fold_case to_lowercase a) (fold_case to_lowercase s)) (answers q)

abbrev pub barcode_action_of : QuestionKind → ℕ → ScanAction
barcode_action_of yes_no i = if i == 0 then yes_answer else no_answer
barcode_action_of (choices v) i = choice (min (i + 1) max_choices)

unfoldable pub barcode_action : Question → ℕ → ScanAction
barcode_action q i = barcode_action_of q.kind i

abbrev pub answer_for_kind : QuestionKind → ScanAction → Option Text
answer_for_kind yes_no yes_answer = some yes_text
answer_for_kind yes_no no_answer = some no_text
answer_for_kind (choices v) (choice n) = if n == 0 then none else get_elem? v (n - 1)
answer_for_kind _ _ = none

unfoldable pub answer_for : Question → ScanAction → Option Text
answer_for q action = answer_for_kind q.kind action

-- The loop over the answers; a vector's last element is the head of `seen`.
unfoldable pub answers_loop : (Text → Text) → List Text → List Text → Check QuestionError
answers_loop to_lowercase seen [] = ok tt
answers_loop to_lowercase seen (a ∷ v) =
    let key = fold_case to_lowercase a in
    let rest = answers_loop to_lowercase (key ∷ seen) v in
    if is_empty key
    then err empty_answer
    else if any (λ s. text_eq s key) seen
    then err (answer_twice key)
    else rest

unfoldable pub validate_kind : (Text → Text) → QuestionKind → Check QuestionError
unfolding answers_loop
validate_kind to_lowercase yes_no = ok tt
validate_kind to_lowercase (choices v) =
    if ltb (length v) 2 || ltb max_choices (length v)
    then err between_two_and_eight
    else answers_loop to_lowercase [] v

unfoldable pub validate_default : (Text → Text) → Question → Option Text → Check QuestionError
unfolding canonical
validate_default to_lowercase q none = ok tt
validate_default to_lowercase q (some d) =
    if not (is_some (canonical to_lowercase q d)) then err (default_not_an_answer d) else ok tt

unfoldable pub validate : (Text → Text) → Question → Check QuestionError
unfolding validate_kind validate_default
validate to_lowercase q =
    if is_empty (trim q.text)
    then err needs_text
    else validate_kind to_lowercase q.kind >> validate_default to_lowercase q q.default

pub record StepRef : Type 0 where
  pub run : RunId
  pub step : Text
  pub iteration : ℕ
  pub question : Option Question
  pub pending_question : Bool
