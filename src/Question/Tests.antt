-- ===== src/Question/Tests.antt =====
-- A question of three answers.
use taskologic.Prelude.{◌≡◌, refl, some, [], ◌∷◌}
use taskologic.Prelude.Result.{ok}
use taskologic.Prelude.Text.{text, trim, is_whitespace}
use taskologic.Board.Tests.{lowercase}
use taskologic.Question.{Question, choices, canonical, answer_for, barcode_action, validate}
use taskologic.Question.Answers.{canonical-answer_for}

abbrev pub test_question : Question
test_question = record {
  text = text "Which bin?";
  kind = choices (text "Paper" ∷ text "Glass" ∷ text " Rest" ∷ []);
  default = some (text "rest");
}

pub test_question-valid : validate lowercase test_question ≡ ok tt
unfolding validate canonical trim is_whitespace
test_question-valid = refl

canonical-answer_for_example :
    (answer_for test_question (barcode_action test_question 2) ≡ some (text " Rest"))
    × (canonical lowercase test_question (text " Rest") ≡ some (text " Rest"))
canonical-answer_for_example =
    canonical-answer_for lowercase refl refl test_question 2 (text " Rest") test_question-valid refl
