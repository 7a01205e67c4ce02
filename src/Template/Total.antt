-- ===== src/Template/Total.antt =====
-- A walk ends, and leaves the stack as it was.
use taskologic.Prelude.{
  ℕ, zero, suc, ◌+◌, ◌≤◌, ◌<◌, ◌≡◌, ◌⊎◌, inl, inr, refl, sym, ap, ◌∙◌, subst, Option, none, some,
  true, false, not, ◌||◌, List, [], ◌∷◌, arith,
}
use taskologic.Prelude.Tests.{◌==◌, if◌then◌else◌, Bool-cases, ==_iff, ==_refl}
use taskologic.Prelude.Lists.{length, keep, contains}
use taskologic.Ids.{TemplateId}
use taskologic.Deps.{DepsOf, next_of}
use taskologic.Template.{Walk, walk_all, walk, emit, emitted}

-- The entries of templates that are not on the stack.
pub fresh : DepsOf → List TemplateId → ℕ
fresh [] stack = 0
fresh ((t, ds) ∷ g) stack = (if contains stack t then 0 else 1) + fresh g stack

pub fresh_le : (g : DepsOf) (stack : List TemplateId) → fresh g stack ≤ length g
unfolding fresh
fresh_le [] stack = omega arith
fresh_le ((t, ds) ∷ g) stack = ground (arith, fresh_le g stack)

fresh_shrinks :
    (g : DepsOf) (stack : List TemplateId) (t : TemplateId) → fresh g (t ∷ stack) ≤ fresh g stack
unfolding fresh
fresh_shrinks [] stack t = omega arith
fresh_shrinks ((s, ds) ∷ g) stack t = ground (arith, fresh_shrinks g stack t)

fresh-cons :
    (g : DepsOf) (stack : List TemplateId) (t : TemplateId)
    → contains stack t ≡ false
    → (next_of g t ≡ []) ⊎ (fresh g (t ∷ stack) < fresh g stack)
unfolding fresh next_of
fresh-cons [] stack t h = inl refl
fresh-cons ((s, ds) ∷ g) stack t h = elim (Bool-cases (s == t)) [
  | inl e ↦ inr (ground (arith, fresh_shrinks g stack t, ==_iff s t, ==_iff t s))
  | inr n ↦ elim (fresh-cons g stack t h) [
    | inl e ↦ inl (rw n e)
    | inr l ↦ inr (ground (arith, l, ==_iff s t, ==_iff t s))
  ]
]

keep-absent :
    (stack : List TemplateId) (t : TemplateId)
    → contains stack t ≡ false
    → keep (λ u. not (u == t)) stack ≡ stack
keep-absent [] t h = refl
keep-absent (s ∷ stack) t h = elim (Bool-cases (s == t)) [
  | inl e ↦ absurd (ground arith)
  | inr n ↦ rw n (ap (λ (l : List TemplateId). s ∷ l) (keep-absent stack t (ground arith)))
]

-- Popping what was pushed.
pub keep-pushed :
    (stack : List TemplateId) (t : TemplateId)
    → contains stack t ≡ false
    → keep (λ u. not (u == t)) (t ∷ stack) ≡ stack
keep-pushed stack t h = rw (==_refl t) (keep-absent stack t h)

-- A result that has a stack.
abbrev pub Ends : Option Walk → List TemplateId → Type 0
Ends r stack = (w : Walk) × (r ≡ some w) × (w.on_stack ≡ stack)

walk_all-Ends :
    (step : TemplateId → Walk → Option Walk) (stack : List TemplateId)
    → ((d : TemplateId) (w : Walk) → w.on_stack ≡ stack → Ends (step d w) stack)
    → (ds : List TemplateId) (w : Walk) → w.on_stack ≡ stack
    → Ends (walk_all step ds w) stack
unfolding walk_all
walk_all-Ends step stack all [] w h = (w, refl, h)
walk_all-Ends step stack all (d ∷ ds) w h =
    let (v, e, k) = all d w h in rw (e, walk_all) (walk_all-Ends step stack all ds v k)

emitted-Ends :
    (t : TemplateId) (stack : List TemplateId) (r : Option Walk)
    → contains stack t ≡ false
    → Ends r (t ∷ stack)
    → Ends (emitted t r) stack
emitted-Ends t stack none n (w, e, h) = absurd (cc)
emitted-Ends t stack (some v) n (w, e, h) =
    let same : v ≡ w = ground arith in
    (
      emit t v,
      refl,
      subst (λ (l : List TemplateId). keep (λ u. not (u == t)) l ≡ stack)
          (sym (ap (λ (x : Walk). x.on_stack) same ∙ h)) (keep-pushed stack t n),
    )

-- Where a walk turns back, and where it goes on.
pub walk-back :
    (fuel : ℕ) (g : DepsOf) (t : TemplateId) (w : Walk)
    → (contains w.done t || contains w.on_stack t) ≡ true
    → walk (suc fuel) g t w ≡ some w
unfolding walk
walk-back fuel g t w h = rw h refl

unfoldable pub inner : ℕ → DepsOf → TemplateId → Walk → Option Walk
inner fuel g t w = walk_all (walk fuel g) (next_of g t) (record w { on_stack = t ∷ w.on_stack })

pub walk-on :
    (fuel : ℕ) (g : DepsOf) (t : TemplateId) (w : Walk)
    → (contains w.done t || contains w.on_stack t) ≡ false
    → walk (suc fuel) g t w ≡ emitted t (inner fuel g t w)
unfolding walk inner
walk-on fuel g t w h = rw h refl

leaf_Ends :
    (fuel : ℕ) (g : DepsOf) (t : TemplateId) (w : Walk) (stack : List TemplateId)
    → next_of g t ≡ []
    → w.on_stack ≡ stack
    → Ends (inner fuel g t w) (t ∷ stack)
unfolding inner walk_all
leaf_Ends fuel g t w stack leaf h =
    rw leaf (record w { on_stack = t ∷ w.on_stack }, refl, ap (λ (l : List TemplateId). t ∷ l) h)

inner-Ends :
    (fuel : ℕ) (g : DepsOf) (t : TemplateId) (w : Walk) (stack : List TemplateId)
    → w.on_stack ≡ stack
    → ((d : TemplateId) (v : Walk) → v.on_stack ≡ t ∷ stack → Ends (walk fuel g d v) (t ∷ stack))
    → Ends (inner fuel g t w) (t ∷ stack)
unfolding inner
inner-Ends fuel g t w stack h all =
    walk_all-Ends (walk fuel g) (t ∷ stack) all (next_of g t)
      (record w { on_stack = t ∷ w.on_stack }) (ap (λ (l : List TemplateId). t ∷ l) h)

pub walk-Ends :
    (fuel : ℕ) (g : DepsOf) (t : TemplateId) (w : Walk) (stack : List TemplateId)
    → w.on_stack ≡ stack
    → fresh g stack < fuel
    → Ends (walk fuel g t w) stack
walk-Ends zero g t w stack h f = absurd (omega arith)
walk-Ends (suc fuel) g t w stack h f =
    elim (Bool-cases (contains w.done t || contains w.on_stack t)) [
      | inl e ↦ (w, walk-back fuel g t w e, h)
      | inr e ↦
          let n : contains stack t ≡ false =
            subst (λ (l : List TemplateId). contains l t ≡ false) h (ground arith) in
          subst (λ r. Ends r stack) (sym (walk-on fuel g t w e))
            (emitted-Ends t stack (inner fuel g t w) n (elim (fresh-cons g stack t n) [
              | inl leaf ↦ leaf_Ends fuel g t w stack leaf h
              | inr less ↦
                  inner-Ends fuel g t w stack h
                    (λ d v k. walk-Ends fuel g d v (t ∷ stack) k (omega arith))
            ]))
    ]
