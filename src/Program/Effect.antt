-- ===== src/Program/Effect.antt =====
-- The first part of `react` of program.rs: what the event fires, and what it does to a question.
use taskologic.Prelude.{Option, none, some, Bool, true, false, not, ◌&&◌, List, [], ◌∷◌, ◌++◌, map}
use taskologic.Prelude.Tests.{◌==◌, if◌then◌else◌}
use taskologic.Prelude.Lists.{any, find}
use taskologic.Prelude.Text.{Text, text_eq, to_ascii_uppercase}
use taskologic.Ids.{TaskId}
use taskologic.Question.{Question, canonical}
use taskologic.Program.{
  Outside, root_key, Trigger, with_root, root_started, finished, answered, Step, StepTask, RunEvent,
  run_created, run_root_started, task_finished, task_answered, task_deleted,
}

abbrev pub step_of : List StepTask → TaskId → Option StepTask
step_of tasks id = find (λ (t : StepTask). t.task_id == id) tasks

-- The question of the step with a key.
abbrev pub asked_by : Option Step → Option Question
asked_by none = none
asked_by (some s) = s.question

abbrev pub question_of : List Step → Text → Option Question
question_of steps key = asked_by (find (λ (s : Step). text_eq s.key key) steps)

-- What the event fires, which task the new ones wait for, and what it does to a question.
pub record Effect : Type 0 where
  pub fired : List Trigger
  pub trigger_task : Option TaskId
  pub answered : Option (TaskId × Text)
  pub ask : Option TaskId

abbrev pub nothing : Effect
nothing = record { fired = []; trigger_task = none; answered = none; ask = none }

abbrev pub group_open : List StepTask → StepTask → Bool
group_open tasks t =
    any
      (λ (o : StepTask).
        text_eq o.step t.step
        && o.iteration == t.iteration
        && not (o.task_id == t.task_id)
        && not o.done
        && not o.skipped)
      tasks

-- `answer.or(q.default).and_then(|a| q.canonical(a))`
abbrev pub given : Outside → Question → Option Text → Option Text
given o q (some a) = canonical o.to_lowercase q a
given o q none = elim q.default [ none ↦ none | some a ↦ canonical o.to_lowercase q a ]

-- The part of a finish about the step's question.
abbrev pub answer_effect : TaskId → Text → Option Text → Effect → Effect
answer_effect task step (some a) e = record e {
  fired = e.fired ++ answered step a ∷ [];
  answered = some (task, a);
}
answer_effect task step none e = record e { ask = some task }

abbrev pub question_effect :
    Outside → Option Question → Option Text → TaskId → Text → Effect → Effect
question_effect o none answer task step e = e
question_effect o (some q) answer task step e = answer_effect task step (given o q answer) e

abbrev pub finish_effect :
    Outside → List Step → List StepTask → TaskId → Option Text → Option StepTask → Option Effect
finish_effect o steps tasks task answer none = some nothing
finish_effect o steps tasks task answer (some t) =
    if text_eq t.step root_key
    then none
    else some (
        question_effect o (question_of steps t.step) answer task t.step (record {
          fired = if group_open tasks t then [] else finished t.step ∷ [];
          trigger_task = some task;
          answered = none;
          ask = none;
        }))

abbrev pub canonical_in : Outside → Option Question → Text → Option Text
canonical_in o none answer = none
canonical_in o (some q) answer = canonical o.to_lowercase q answer

abbrev pub late_answer : TaskId → Text → Option Text → Effect
late_answer task step none = nothing
late_answer task step (some a) = record {
  fired = answered step a ∷ [];
  trigger_task = some task;
  answered = some (task, a);
  ask = none;
}

abbrev pub answer_late : Outside → List Step → TaskId → Text → Option StepTask → Effect
answer_late o steps task answer none = nothing
answer_late o steps task answer (some t) =
    late_answer task t.step (canonical_in o (question_of steps t.step) answer)

abbrev pub delete_effect : Option StepTask → Option Effect
delete_effect none = some nothing
delete_effect (some t) = if text_eq t.step root_key then none else some nothing

-- The `match` on the event; none is the return that ends the run.
unfoldable pub effect : Outside → List Step → List StepTask → RunEvent → Option Effect
unfolding canonical
effect o steps tasks run_created = some (record nothing { fired = with_root ∷ [] })
effect o steps tasks run_root_started = some (record nothing { fired = root_started ∷ [] })
effect o steps tasks (task_finished task answer) =
    finish_effect o steps tasks task answer (step_of tasks task)
effect o steps tasks (task_answered task answer) =
    some (answer_late o steps task answer (step_of tasks task))
effect o steps tasks (task_deleted task) = delete_effect (step_of tasks task)

-- `eq_ignore_ascii_case`
abbrev pub eq_ignore_ascii_case : Text → Text → Bool
eq_ignore_ascii_case s t = text_eq (map to_ascii_uppercase s) (map to_ascii_uppercase t)

-- Whether a trigger that was fired, the second, is the step's, the first.
abbrev pub is_trigger : Trigger → Trigger → Bool
is_trigger with_root with_root = true
is_trigger root_started root_started = true
is_trigger (finished s) (finished s') = text_eq s' s
is_trigger (answered s a) (answered s' a') = text_eq s' s && eq_ignore_ascii_case a' a
is_trigger _ _ = false

abbrev pub matches : List Trigger → Trigger → Bool
matches fired t = any (is_trigger t) fired
