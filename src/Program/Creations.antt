-- ===== src/Program/Creations.antt =====
-- Which tasks `react` makes.
use taskologic.Prelude.{
  ℕ, suc, ◌+◌, ◌≤◌, ◌<◌, ◌≡◌, ◌⊎◌, inl, inr, refl, sym, ap, subst, Option, none, some, Bool, true,
  false, not, ◌&&◌, ◌||◌, List, [], ◌∷◌, ◌++◌, map, arith,
}
use taskologic.Prelude.Tests.{if◌then◌else◌, Bool-cases}
use taskologic.Prelude.Lists.{any, get_elem?, In, here, there}
use taskologic.Prelude.Text.{Text, text_eq}
use taskologic.Ids.{TaskId}
use taskologic.Time.{DateTime, Tz}
use taskologic.Program.{Outside, Trigger, Step, is_root, StepTask, RunEvent, Creation}
use taskologic.Program.Effect.{Effect, effect, matches}
use taskologic.Board.{dedup}
use taskologic.Program.{params}
use taskologic.Program.React.{
  start_of, trigger_ids, also_waits, greatest, of_step, creations_of, is_passed, create_loop,
  plan_or_end, react, is_root_started,
}

-- Why a task is made, and how it stands among the tasks the run has already.
pub record IsMade (tasks : List StepTask) (fired : List Trigger) (step : Step) (c : Creation)
    : Type 0 where
  pub not_root : is_root step ≡ false
  pub triggered : any (matches fired) step.created ≡ true
  pub counted : c.counts ≡ step.counts_toward_root
  pub next :
      (t : StepTask) → In t tasks → text_eq t.step step.key ≡ true → t.iteration < c.iteration
  pub only_once :
      step.once ≡ true
      → (t : StepTask) → In t tasks
      → text_eq t.step step.key ≡ true
      → t.skipped ≡ true

In-append : {A : Type 0} (xs ys : List A) (a : A) → In a (xs ++ ys) → In a xs ⊎ In a ys
In-append [] ys a m = inr m
In-append (x ∷ xs) ys a (here e) = inl (here e)
In-append (x ∷ xs) ys a (there m) = elim (In-append xs ys a m) [
  | inl l ↦ inl (there l)
  | inr r ↦ inr r
]

In-map : {A B : Type 0} (f : A → B) (xs : List A) (b : B) → In b (map f xs) → (a : A) × (b ≡ f a)
In-map f [] b m = elim m [ ]
In-map f (x ∷ xs) b (here e) = (x, e)
In-map f (x ∷ xs) b (there m) = In-map f xs b m

-- The greatest iteration of a step is at least that of each of its tasks.
of_step-greatest :
    (tasks : List StepTask) (key : Text) (t : StepTask)
    → In t tasks
    → text_eq t.step key ≡ true
    → t.iteration ≤ greatest (of_step tasks key)
of_step-greatest [] key t m h = elim m [ ]
of_step-greatest (s ∷ tasks) key t (here e) h =
    subst (λ (u : StepTask). u.iteration ≤ greatest (of_step (s ∷ tasks) key)) (sym e)
      (rw (subst (λ (u : StepTask). text_eq u.step key ≡ true) e h) (omega arith))
of_step-greatest (s ∷ tasks) key t (there m) h = elim (Bool-cases (text_eq s.step key)) [
  | inl e ↦ rw e (omega (arith, of_step-greatest tasks key t m h))
  | inr e ↦ rw e (of_step-greatest tasks key t m h)
]

none_left :
    (b : Bool) (s : StepTask) (rest : List StepTask)
    → any (λ (u : StepTask). not u.skipped) (if b then s ∷ rest else rest) ≡ false
    → (b ≡ true → s.skipped ≡ true) × (any (λ (u : StepTask). not u.skipped) rest ≡ false)
none_left true s rest h = ground arith
none_left false s rest h = (λ e. absurd (cc), h)

-- Where none is left that is not skipped, each is skipped.
all_skipped :
    (tasks : List StepTask) (key : Text) (t : StepTask)
    → any (λ (u : StepTask). not u.skipped) (of_step tasks key) ≡ false
    → In t tasks
    → text_eq t.step key ≡ true
    → t.skipped ≡ true
all_skipped [] key t a m h = elim m [ ]
all_skipped (s ∷ tasks) key t a (here e) h =
    let (now, _) = none_left (text_eq s.step key) s (of_step tasks key) a in
    subst (λ (u : StepTask). u.skipped ≡ true) (sym e)
      (now (subst (λ (u : StepTask). text_eq u.step key ≡ true) e h))
all_skipped (s ∷ tasks) key t a (there m) h =
    let (_, rest) = none_left (text_eq s.step key) s (of_step tasks key) a in
    all_skipped tasks key t rest m h

-- Where the loop's result comes from.
come_from :
    (passed : Bool) (c : Creation) (made rest : List Creation)
    → In c (if passed then rest else made ++ rest)
    → ((passed ≡ false) × In c made) ⊎ In c rest
come_from true c made rest m = inr m
come_from false c made rest m = elim (In-append made rest c m) [
  | inl l ↦ inl (refl, l)
  | inr r ↦ inr r
]

module _ (o : Outside) (tasks : List StepTask) (fired : List Trigger) (trigger_task : Option TaskId)
    (begun : Bool) (now : DateTime) (tz : Tz) where
  made :
      (index : ℕ) (step : Step) (c : Creation)
      → is_passed tasks fired step ≡ false
      → In c (creations_of o tasks trigger_task begun now tz index step)
      → (c.step ≡ index) × IsMade tasks fired step c
  made index step c p m =
      let (q, e) =
        In-map
          (λ (p : Option Text). record {
            step = index;
            iteration = suc (greatest (of_step tasks step.key));
            param = p;
            start_at = start_of o step.start begun now tz;
            depends_on = dedup (trigger_ids trigger_task ++ also_waits tasks step.also_after);
            counts = step.counts_toward_root;
          })
          (params step) c m in
      let (x, y, z) = not_passed p in
      (
        ap (λ (k : Creation). k.step) e,
        record {
          not_root = x;
          triggered = y;
          counted = ap (λ (k : Creation). k.counts) e;
          next = λ t i h.
              subst (λ n. t.iteration < n) (sym (ap (λ (k : Creation). k.iteration) e))
                (omega (arith, of_step-greatest tasks step.key t i h));
          only_once = λ once t i h. all_skipped tasks step.key t (ground (arith, z)) i h;
        },
      )
    where
      not_passed :
          is_passed tasks fired step ≡ false
          → (is_root step ≡ false)
            × (any (matches fired) step.created ≡ true)
            × ((step.once && any (λ (t : StepTask). not t.skipped) (of_step tasks step.key))
                ≡ false)
      not_passed p = ground arith

  create_loop-IsMade :
      (index : ℕ) (steps : List Step) (c : Creation)
      → In c (create_loop o tasks fired trigger_task begun now tz index steps)
      → (k : ℕ) × (step : Step) × (get_elem? steps k ≡ some step)
        × (c.step ≡ index + k)
        × IsMade tasks fired step c
  unfolding create_loop
  create_loop-IsMade index [] c m = elim m [ ]
  create_loop-IsMade index (step ∷ steps) c m =
      let rest = create_loop o tasks fired trigger_task begun now tz (suc index) steps in
      let first = creations_of o tasks trigger_task begun now tz index step in
      elim (come_from (is_passed tasks fired step) c first rest m) [
        | inl (p, l) ↦ let (e, w) = made index step c p l in (0, step, refl, omega (arith, e), w)
        | inr r ↦
            let (k, s, g, e, w) = create_loop-IsMade (suc index) steps c r in
            (suc k, s, g, omega (arith, e), w)
      ]

-- Every task that an event makes is one of a step of the program that is not the root and that has a
-- trigger the event fired; its iteration is greater than that of every task the step has; it counts
-- as the step says; and where the step is made once, all its tasks before were deleted.
pub react-IsMade :
    (o : Outside) (steps : List Step) (tasks : List StepTask) (started : Bool) (event : RunEvent)
    (now : DateTime) (tz : Tz) (c : Creation)
    → In c (react o steps tasks started event now tz).create
    → (e : Effect) × (effect o steps tasks event ≡ some e)
      × (step : Step) × (get_elem? steps c.step ≡ some step)
      × IsMade tasks e.fired step c
unfolding react
react-IsMade o steps tasks started event now tz c m = split (effect o steps tasks event) refl m
  where
    split :
        (r : Option Effect)
        → effect o steps tasks event ≡ r
        → In c (plan_or_end o steps tasks started event now tz r).create
        → (e : Effect) × (effect o steps tasks event ≡ some e)
          × (step : Step) × (get_elem? steps c.step ≡ some step)
          × IsMade tasks e.fired step c
    split none h m = elim m [ ]
    split (some e) h m =
        let (k, s, g, i, w) =
          create_loop-IsMade o tasks e.fired e.trigger_task (started || is_root_started event) now
            tz 0 steps c m in
        let same : k ≡ c.step = omega (arith, i) in
        (e, h, s, subst (λ n. get_elem? steps n ≡ some s) same g, w)
