-- ===== src/Slips/Tests.antt =====
-- A slip with a question, and a rule that names people who are not all members.
use taskologic.Prelude.{ℕ, ◌≡◌, ◌↔◌, refl, some, true, false, List, [], ◌∷◌, ◌++◌}
use taskologic.Prelude.Lists.{In, get_elem?}
use taskologic.Prelude.Text.{Text, text}
use taskologic.Ids.ShortId.{from_index}
use taskologic.Ids.ShortId.Laws.{from_index-IsShortId}
use taskologic.Board.{Board, is_member}
use taskologic.Board.Tests.{lowercase, test_board}
use taskologic.Barcode.{start_pause}
use taskologic.Print.{PrintRule, on_start, task_slip, users, code39}
use taskologic.Question.{answers, answer_for}
use taskologic.Question.Tests.{test_question, test_question-valid}
use taskologic.Task.{Task}
use taskologic.Lifecycle.Tests.{test_task}
use taskologic.Slips.{Barcode, User, barcodes_for}
use taskologic.Slips.Codes.{Reads, barcodes_for-answer_for}
use taskologic.Slips.Plans.{recipients_of}
use taskologic.Slips.People.{IsNamed, Increasing, recipients_of_iff}

abbrev test_user : User
test_user = record { timezone = 0; format = code39 }

abbrev asking_task : Task
asking_task = record test_task {
  short_id = from_index 7;
  program = some (record {
    run = 1;
    step = text "sort";
    iteration = 0;
    question = some test_question;
    pending_question = false;
  });
}

abbrev test_rule : PrintRule
test_rule = record { when = on_start; slip = task_slip; to = users (9 ∷ 2 ∷ 1 ∷ 2 ∷ []) }

abbrev private_board : Board
private_board = record test_board { owner_uid = 1; is_private = true; members = 2 ∷ [] }

printed_for : recipients_of test_rule asking_task private_board ≡ 1 ∷ 2 ∷ []
unfolding recipients_of
printed_for = refl

recipients_of_iff_example :
    ((u : ℕ)
      → In u (recipients_of test_rule asking_task private_board)
        ↔ (IsNamed test_rule.to asking_task u × (is_member private_board u ≡ true)))
    × Increasing (recipients_of test_rule asking_task private_board)
recipients_of_iff_example = recipients_of_iff test_rule asking_task private_board

barcodes_for-answer_for_example :
    (first : Barcode) × (codes : List Barcode) × (barcodes_for test_user asking_task
      ≡ some (first ∷ codes))
    × (first.action ≡ start_pause)
    × ((i : ℕ) (a : Text)
        → get_elem? (answers test_question) i ≡ some a
        → (code : Barcode) × (get_elem? codes i ≡ some code)
          × (code.label ≡ some (text "scan to finish: " ++ a))
          × Reads asking_task code
          × (answer_for test_question code.action ≡ some a))
barcodes_for-answer_for_example =
    barcodes_for-answer_for lowercase refl refl test_user asking_task test_question
      (from_index-IsShortId 7) refl test_question-valid
