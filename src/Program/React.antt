-- ===== src/Program/React.antt =====
-- The rest of `react` of program.rs: which tasks are made, which are dated, and whether the root
-- finishes.
use taskologic.Prelude.{
  ℕ, suc, max, Option, none, some, Bool, true, false, not, ◌&&◌, ◌||◌, List, [], ◌∷◌, ◌++◌, map,
}
use taskologic.Prelude.Tests.{◌==◌, ltb, if◌then◌else◌}
use taskologic.Prelude.Lists.{any, all, keep}
use taskologic.Prelude.Text.{Text, text_eq}
use taskologic.Ids.{TaskId}
use taskologic.Time.{DateTime, NaiveTime, Tz, after}
use taskologic.Schedule.Local.{local_to_utc}
use taskologic.Board.{dedup}
use taskologic.Program.{
  Outside, root_key, Trigger, StartRule, manual, when_root_starts, after_trigger, days_later_at,
  Step, is_root, params, StepTask, RunEvent, run_root_started, task_finished, task_deleted,
  Creation, Plan,
}
use taskologic.Program.Effect.{Effect, effect, matches}

-- `max_by_key` on the iteration: the last of the greatest.
abbrev pub latest : List StepTask → Option StepTask → Option StepTask
latest [] best = best
latest (t ∷ ts) none = latest ts (some t)
latest (t ∷ ts) (some b) =
    let keep_it = latest ts (some b) in
    let take_it = latest ts (some t) in if ltb t.iteration b.iteration then keep_it else take_it

abbrev pub id_of : Option StepTask → List TaskId
id_of none = []
id_of (some t) = t.task_id ∷ []

-- The latest tasks of the steps that it also waits for.
abbrev pub also_waits : List StepTask → List Text → List TaskId
also_waits tasks [] = []
also_waits tasks (key ∷ keys) =
    id_of (latest (keep (λ (t : StepTask). text_eq t.step key && not t.skipped) tasks) none)
    ++ also_waits tasks keys

abbrev pub trigger_ids : Option TaskId → List TaskId
trigger_ids none = []
trigger_ids (some t) = t ∷ []

-- `max().unwrap_or(0)`
abbrev pub greatest : List StepTask → ℕ
greatest [] = 0
greatest (t ∷ ts) = max t.iteration (greatest ts)

abbrev pub of_step : List StepTask → Text → List StepTask
of_step tasks key = keep (λ (t : StepTask). text_eq t.step key) tasks

unfoldable pub days_later : Outside → DateTime → ℕ → NaiveTime → Tz → Option DateTime
unfolding local_to_utc
days_later o now days at tz = elim (o.checked_add_days (o.local_date now tz) days) [
  | none ↦ none
  | some date ↦
      some (local_to_utc o.from_local_datetime o.from_utc_datetime tz (o.and_time date at))
]

unfoldable pub start_of : Outside → StartRule → Bool → DateTime → Tz → Option DateTime
unfolding days_later
start_of o manual started now tz = none
start_of o when_root_starts started now tz = if started then some now else none
start_of o (after_trigger offset) started now tz =
    after o.try_minutes o.checked_add_signed offset now
start_of o (days_later_at days at) started now tz = days_later o now days at tz

-- The tasks of one step: one for each entry, on its next iteration.
abbrev pub creations_of :
    Outside → List StepTask → Option TaskId → Bool → DateTime → Tz → ℕ → Step → List Creation
creations_of o tasks trigger_task started now tz index step =
    let iteration = suc (greatest (of_step tasks step.key)) in
    let depends_on = dedup (trigger_ids trigger_task ++ also_waits tasks step.also_after) in
    let start_at = start_of o step.start started now tz in
    map
      (λ (p : Option Text). record {
        step = index;
        iteration = iteration;
        param = p;
        start_at = start_at;
        depends_on = depends_on;
        counts = step.counts_toward_root;
      })
      (params step)

-- Whether the loop goes past a step.
abbrev pub is_passed : List StepTask → List Trigger → Step → Bool
is_passed tasks fired step =
    is_root step
    || not (any (matches fired) step.created)
    || (step.once && any (λ (t : StepTask). not t.skipped) (of_step tasks step.key))

-- The loop over the steps, with the index of the first of those left.
unfoldable pub create_loop :
    Outside
    → List StepTask
    → List Trigger
    → Option TaskId
    → Bool
    → DateTime
    → Tz
    → ℕ
    → List Step
    → List Creation
unfolding dedup start_of
create_loop o tasks fired trigger_task started now tz index [] = []
create_loop o tasks fired trigger_task started now tz index (step ∷ steps) =
    let rest = create_loop o tasks fired trigger_task started now tz (suc index) steps in
    let made = creations_of o tasks trigger_task started now tz index step in
    if is_passed tasks fired step then rest else made ++ rest

abbrev pub is_root_started : RunEvent → Bool
is_root_started run_root_started = true
is_root_started _ = false

abbrev pub is_when_root_starts : StartRule → Bool
is_when_root_starts when_root_starts = true
is_when_root_starts _ = false

abbrev pub waits_for_start : List Step → StepTask → Bool
waits_for_start steps t =
    not t.done
    && not t.skipped
    && not (text_eq t.step root_key)
    && any (λ (s : Step). text_eq s.key t.step && is_when_root_starts s.start) steps

abbrev pub finishes : RunEvent → TaskId → Bool
finishes (task_finished task answer) id = task == id
finishes _ id = false

abbrev pub deletes : RunEvent → TaskId → Bool
deletes (task_deleted task) id = task == id
deletes _ id = false

abbrev pub is_task : Option TaskId → TaskId → Bool
is_task none id = false
is_task (some t) id = t == id

abbrev pub answered_task : Option (TaskId × Text) → Option TaskId
answered_task none = none
answered_task (some (t, a)) = some t

-- Whether the root has to wait for a task, after the event.
abbrev pub is_open : RunEvent → Effect → StepTask → Bool
is_open event e t =
    let done = t.done || finishes event t.task_id in
    let skipped = t.skipped || deletes event t.task_id in
    let answered_now = is_task (answered_task e.answered) t.task_id in
    let waiting = (t.pending_answer && not answered_now) || is_task e.ask t.task_id in
    not (text_eq t.step root_key) && t.counts && not skipped && (not done || waiting)

abbrev pub root_done : List StepTask → Bool
root_done tasks = any (λ (t : StepTask). text_eq t.step root_key && t.done) tasks

abbrev pub no_plan : Plan
no_plan = record {
  create = [];
  set_start = [];
  finish_root = false;
  end_run = false;
  ask = none;
  answered = none;
}

-- What follows the `match` on the event.
abbrev pub plan_of :
    Outside → List Step → List StepTask → Bool → RunEvent → DateTime → Tz → Effect → Plan
plan_of o steps tasks started event now tz e =
    let begun = started || is_root_started event in
    let create = create_loop o tasks e.fired e.trigger_task begun now tz 0 steps in
    record {
      create = create;
      set_start =
          if is_root_started event
          then map (λ (t : StepTask). t.task_id) (keep (waits_for_start steps) tasks)
          else [];
      finish_root =
          begun
          && not (any (is_open event e) tasks)
          && not (root_done tasks)
          && all (λ (c : Creation). not c.counts) create;
      end_run = false;
      ask = e.ask;
      answered = e.answered;
    }

abbrev pub plan_or_end :
    Outside → List Step → List StepTask → Bool → RunEvent → DateTime → Tz → Option Effect → Plan
plan_or_end o steps tasks started event now tz none = record no_plan { end_run = true }
plan_or_end o steps tasks started event now tz (some e) =
    plan_of o steps tasks started event now tz e

unfoldable pub react : Outside → List Step → List StepTask → Bool → RunEvent → DateTime → Tz → Plan
unfolding effect create_loop
react o steps tasks started event now tz =
    plan_or_end o steps tasks started event now tz (effect o steps tasks event)
