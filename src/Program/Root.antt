-- ===== src/Program/Root.antt =====
-- When the root of a run finishes, and when the run ends.
use taskologic.Prelude.{
  ◌≡◌, ◌⊎◌, ◌↔◌, inl, inr, ◌∙◌, refl, sym, subst, Option, none, some, Bool, true, false, not, ◌||◌,
  List, [], ◌∷◌, arith,
}
use taskologic.Prelude.Tests.{Option-cases}
use taskologic.Prelude.Lists.{any, all, In, here, there}
use taskologic.Prelude.Text.{Text, text_eq, text_eq_sound}
use taskologic.Ids.{TaskId}
use taskologic.Time.{DateTime, Tz}
use taskologic.Program.{
  Outside, root_key, Step, StepTask, RunEvent, task_finished, task_deleted, Creation, Plan,
}
use taskologic.Program.Effect.{Effect, effect, step_of, finish_effect, delete_effect}
use taskologic.Program.React.{
  is_root_started, finishes, deletes, is_open, is_task, answered_task, root_done, no_plan, plan_of,
  plan_or_end, react,
}

any-In :
    {A : Type 0} (p : A → Bool) (xs : List A) (a : A) → any p xs ≡ false → In a xs → p a ≡ false
any-In p [] a h m = elim m [ ]
any-In p (x ∷ xs) a h (here e) = subst (λ y. p y ≡ false) (sym e) (ground arith)
any-In p (x ∷ xs) a h (there m) = any-In p xs a (ground arith) m

all-In : {A : Type 0} (p : A → Bool) (xs : List A) (a : A) → all p xs ≡ true → In a xs → p a ≡ true
all-In p [] a h m = elim m [ ]
all-In p (x ∷ xs) a h (here e) = subst (λ y. p y ≡ true) (sym e) (ground arith)
all-In p (x ∷ xs) a h (there m) = all-In p xs a (ground arith) m

-- A task that the root need not wait for after an event.
abbrev pub IsSettled : RunEvent → Plan → StepTask → Type 0
IsSettled event plan t =
    (t.counts ≡ false)
    ⊎ (((t.skipped || deletes event t.task_id) ≡ true)
        ⊎ (((t.done || finishes event t.task_id) ≡ true)
            × (t.pending_answer ≡ true → is_task (answered_task plan.answered) t.task_id ≡ true)
            × (is_task plan.ask t.task_id ≡ false)))

-- When an event finishes the root, the root has started and was not done, no task is made that counts,
-- and each of the run's other tasks that counts is deleted, or is done with no question of it open.
pub finish_root-react :
    (o : Outside) (steps : List Step) (tasks : List StepTask) (started : Bool) (event : RunEvent)
    (now : DateTime) (tz : Tz)
    → (react o steps tasks started event now tz).finish_root ≡ true
    → ((started || is_root_started event) ≡ true)
      × (root_done tasks ≡ false)
      × ((c : Creation) → In c (react o steps tasks started event now tz).create → c.counts ≡ false)
      × ((t : StepTask)
          → In t tasks
          → text_eq t.step root_key ≡ false
          → IsSettled event (react o steps tasks started event now tz) t)
unfolding react
finish_root-react o steps tasks started event now tz h = split (effect o steps tasks event) h
  where
    split :
        (r : Option Effect)
        → (plan_or_end o steps tasks started event now tz r).finish_root ≡ true
        → ((started || is_root_started event) ≡ true)
          × (root_done tasks ≡ false)
          × ((c : Creation)
              → In c (plan_or_end o steps tasks started event now tz r).create
              → c.counts ≡ false)
          × ((t : StepTask)
              → In t tasks
              → text_eq t.step root_key ≡ false
              → IsSettled event (plan_or_end o steps tasks started event now tz r) t)
    split none h = absurd (cc)
    split (some e) h =
        let p = plan_of o steps tasks started event now tz e in
        let parts : ((started || is_root_started event) ≡ true)
            × (any (is_open event e) tasks ≡ false)
            × (root_done tasks ≡ false)
            × (all (λ (c : Creation). not c.counts) p.create ≡ true) =
          ground arith in
        let (a, b, c, d) = parts in
        (
          a,
          c,
          λ k m. ground (arith, all-In (λ (c : Creation). not c.counts) p.create k d m),
          λ t m n. ground (arith, any-In (is_open event e) tasks t b m),
        )

-- The task that an event takes away, done or deleted.
abbrev pub taken : RunEvent → Option TaskId
taken (task_finished id answer) = some id
taken (task_deleted id) = some id
taken _ = none

abbrev pub TakesRoot : List StepTask → Option TaskId → Type 0
TakesRoot tasks none = ⊥
TakesRoot tasks (some id) = (t : StepTask) × (step_of tasks id ≡ some t) × (t.step ≡ root_key)

text_eq_root : (s : Text) → s ≡ root_key → text_eq s root_key ≡ true
text_eq_root s e = subst (λ x. text_eq x root_key ≡ true) (sym e) refl

finish_effect-none :
    (o : Outside) (steps : List Step) (tasks : List StepTask) (id : TaskId) (answer : Option Text)
    (r : Option StepTask)
    → (finish_effect o steps tasks id answer r ≡ none)
      ↔ ((t : StepTask) × (r ≡ some t) × (t.step ≡ root_key))
finish_effect-none o steps tasks id answer none = (λ h. absurd (cc), λ (t, e, k). absurd (cc))
finish_effect-none o steps tasks id answer (some t) = (
  λ h. (t, refl, text_eq_sound t.step root_key (ground arith)),
  λ (u, e, k). let r = text_eq_root u.step k in ground arith,
)

delete_effect-none :
    (r : Option StepTask)
    → (delete_effect r ≡ none) ↔ ((t : StepTask) × (r ≡ some t) × (t.step ≡ root_key))
delete_effect-none none = (λ h. absurd (cc), λ (t, e, k). absurd (cc))
delete_effect-none (some t) = (
  λ h. (t, refl, text_eq_sound t.step root_key (ground arith)),
  λ (u, e, k). let r = text_eq_root u.step k in ground arith,
)

effect-none :
    (o : Outside) (steps : List Step) (tasks : List StepTask) (event : RunEvent)
    → (effect o steps tasks event ≡ none) ↔ TakesRoot tasks (taken event)
unfolding effect
effect-none o steps tasks (task_finished id answer) =
    finish_effect-none o steps tasks id answer (step_of tasks id)
effect-none o steps tasks (task_deleted id) = delete_effect-none (step_of tasks id)
effect-none o steps tasks _ = (λ h. absurd (cc), λ h. absurd h)

-- The run ends exactly when the event finishes or deletes a task of the root step, and an event that ends
-- the run does nothing else: no task is made or dated, no question is asked or answered, and the root
-- is not finished again.
pub end_run-react_iff :
    (o : Outside) (steps : List Step) (tasks : List StepTask) (started : Bool) (event : RunEvent)
    (now : DateTime) (tz : Tz)
    → (((react o steps tasks started event now tz).end_run ≡ true) ↔ TakesRoot tasks (taken event))
      × ((react o steps tasks started event now tz).end_run ≡ true
          → react o steps tasks started event now tz ≡ record no_plan { end_run = true })
unfolding react
end_run-react_iff o steps tasks started event now tz =
    let (to, from) = effect-none o steps tasks event in
    elim (Option-cases (effect o steps tasks event)) [
      | inl e ↦ rw e ((λ h. to e, λ h. refl), λ h. refl)
      | inr (x, e) ↦
          let clash : some x ≡ none → ⊥ = λ z. cc in
          rw e ((λ h. absurd (cc), λ h. absurd (clash (sym e ∙ from h))), λ h. absurd (cc))
    ]
