-- ===== src/Program/Tests.antt =====
-- A run of a root and two steps, of which the second waits for the first.
use taskologic.Prelude.{
  ℕ, ◌≡◌, ◌↔◌, ◌||◌, refl, sym, subst, none, some, Bool, true, false, List, [], ◌∷◌,
}
use taskologic.Prelude.Lists.{In, here, get_elem?}
use taskologic.Prelude.Int.{pos, ◌+ℤ◌}
use taskologic.Prelude.Text.{Text, text, text_eq, to_ascii_uppercase}
use taskologic.Board.{dedup}
use taskologic.Board.Tests.{lowercase}
use taskologic.Schedule.Local.{gap}
use taskologic.Program.{
  Outside, root_key, starter, Trigger, with_root, finished, Step, manual, StepTask, task_finished,
  Creation,
}
use taskologic.Program.Effect.{Effect, effect}
use taskologic.Program.React.{is_root_started, root_done, no_plan, start_of, create_loop, react}
use taskologic.Program.Creations.{IsMade, react-IsMade}
use taskologic.Program.Root.{IsSettled, finish_root-react, TakesRoot, end_run-react_iff}

abbrev test_outside : Outside
test_outside = record {
  to_lowercase = lowercase;
  try_minutes = λ m. some (pos m);
  checked_add_signed = λ at d. some (at +ℤ d);
  local_date = λ at tz. at;
  checked_add_days = λ d n. some (d +ℤ pos n);
  and_time = λ d t. d;
  from_local_datetime = λ tz n. gap;
  from_utc_datetime = λ n. n;
}

abbrev plain_step : Text → List Trigger → Step
plain_step key created = record {
  key = key;
  title = key;
  description = [];
  assign = starter;
  checklist = [];
  created = created;
  once = true;
  also_after = [];
  start = manual;
  auto_start = false;
  time_limit = none;
  counts_toward_root = true;
  question = none;
  print = [];
  fan_out = none;
}

abbrev test_steps : List Step
test_steps =
    plain_step root_key []
    ∷ plain_step (text "1") (with_root ∷ [])
    ∷ plain_step (text "2") (finished (text "1") ∷ [])
    ∷ []

abbrev made_task : ℕ → Text → Bool → StepTask
made_task id step done = record {
  step = step;
  iteration = 1;
  param = none;
  task_id = id;
  done = done;
  skipped = false;
  counts = true;
  pending_answer = false;
}

abbrev first_tasks : List StepTask
first_tasks = made_task 10 root_key false ∷ made_task 11 (text "1") false ∷ []

abbrev second : Creation
second = record {
  step = 2;
  iteration = 1;
  param = none;
  start_at = none;
  depends_on = 11 ∷ [];
  counts = true;
}

second_made :
    (react test_outside test_steps first_tasks true (task_finished 11 none) (pos 5) 0).create
    ≡ second ∷ []
unfolding react effect create_loop dedup start_of to_ascii_uppercase
second_made = refl

react-IsMade_example :
    (e : Effect) × (effect test_outside test_steps first_tasks (task_finished 11 none) ≡ some e)
    × (step : Step) × (get_elem? test_steps 2 ≡ some step)
    × IsMade first_tasks e.fired step second
react-IsMade_example =
    react-IsMade test_outside test_steps first_tasks true (task_finished 11 none) (pos 5) 0 second
      (subst (λ cs. In second cs) (sym second_made) (here refl))

abbrev last_tasks : List StepTask
last_tasks =
    made_task 10 root_key false ∷ made_task 11 (text "1") true ∷ made_task 12 (text "2") false ∷ []

last_finishes :
    (react test_outside test_steps last_tasks true (task_finished 12 none) (pos 9) 0).finish_root
    ≡ true
unfolding react effect create_loop dedup start_of to_ascii_uppercase
last_finishes = refl

finish_root-react_example :
    ((true || is_root_started (task_finished 12 none)) ≡ true)
    × (root_done last_tasks ≡ false)
    × ((c : Creation)
        → In c
            (react test_outside test_steps last_tasks true (task_finished 12 none) (pos 9) 0).create
        → c.counts ≡ false)
    × ((t : StepTask)
        → In t last_tasks
        → text_eq t.step root_key ≡ false
        → IsSettled
            (task_finished 12 none)
            (react test_outside test_steps last_tasks true (task_finished 12 none) (pos 9) 0)
            t)
finish_root-react_example =
    finish_root-react test_outside test_steps last_tasks true (task_finished 12 none) (pos 9) 0
      last_finishes

end_run-react_iff_example :
    (((react test_outside test_steps first_tasks true (task_finished 10 none) (pos 5) 0).end_run
        ≡ true)
      ↔ TakesRoot first_tasks (some 10))
    × ((react test_outside test_steps first_tasks true (task_finished 10 none) (pos 5) 0).end_run
          ≡ true
        → react test_outside test_steps first_tasks true (task_finished 10 none) (pos 5) 0
          ≡ record no_plan { end_run = true })
end_run-react_iff_example =
    end_run-react_iff test_outside test_steps first_tasks true (task_finished 10 none) (pos 5) 0
