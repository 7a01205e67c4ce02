-- ===== src/Template/Order.antt =====
-- The expansion order puts dependencies first, each once, and has exactly what is needed.

use taskologic.Prelude.{
  ℕ, zero, suc, ◌+◌, ◌≡◌, ◌≢◌, ◌↔◌, ◌⊎◌, inl, inr, refl, sym, ap, ◌∙◌, subst, Option, none, some,
  true, false, not, ◌||◌, List, [], ◌∷◌, ◌++◌, arith,
}
use taskologic.Prelude.Tests.{◌==◌, Bool-cases, Option-cases, ==_iff, ==_refl}
use taskologic.Prelude.Lists.{length, keep, contains}
use taskologic.Ids.{TemplateId}
use taskologic.Deps.{DepsOf, next_of}
use taskologic.Deps.Search.{Has, Reach, here, step, contains-append}
use taskologic.Deps.Edit.{Acyclic, Reach-trans}
use taskologic.Template.{Walk, walk_all, walk, emit, emitted, pop, no_walk, expansion_order}
use taskologic.Template.Total.{fresh_le, keep-pushed, inner, walk-back, walk-on, walk-Ends}

-- Each template of the list is new and stands behind all that it depends on; `before` is what went
-- before the list.
abbrev pub Placed : DepsOf → List TemplateId → List TemplateId → Type 0
Placed g before [] = Unit
Placed g before (t ∷ ts) =
    (contains before t ≡ false)
    × ((d : TemplateId) → Has (next_of g t) d → Has before d)
    × Placed g (t ∷ before) ts

Placed-snoc :
    (g : DepsOf) (before ts : List TemplateId) (t : TemplateId)
    → Placed g before ts
    → contains before t ≡ false
    → contains ts t ≡ false
    → ((d : TemplateId) → Has (next_of g t) d → (contains before d || contains ts d) ≡ true)
    → Placed g before (ts ++ t ∷ [])
Placed-snoc g before [] t p n m all = (n, λ d e. ground (arith, all d e), tt)
Placed-snoc g before (s ∷ ts) t (a, b, p) n m all = (
  a,
  b,
  Placed-snoc g (s ∷ before) ts t p (ground arith) (ground arith) (λ d e. ground (arith, all d e)),
)

record Sound (g : DepsOf) (w : Walk) : Type 0 where
  placed : Placed g [] w.out
  same : (u : TemplateId) → contains w.done u ≡ contains w.out u

-- What a walk for `t` leaves.
record After (g : DepsOf) (t : TemplateId) (w v : Walk) : Type 0 where
  sound : Sound g v
  stack : v.on_stack ≡ w.on_stack
  has : Has v.done t
  grows : (u : TemplateId) → Has w.done u → Has v.done u
  only : (u : TemplateId) → Has v.done u → Has w.done u ⊎ Reach g t u

-- What the walks for some dependencies leave.
record AfterAll (g : DepsOf) (ds : List TemplateId) (w v : Walk) : Type 0 where
  sound : Sound g v
  stack : v.on_stack ≡ w.on_stack
  has : (d : TemplateId) → Has ds d → Has v.done d
  grows : (u : TemplateId) → Has w.done u → Has v.done u
  only :
      (u : TemplateId) → Has v.done u → Has w.done u ⊎ ((d : TemplateId) × Has ds d × Reach g d u)

AfterAll-cons :
    (g : DepsOf) (d : TemplateId) (ds : List TemplateId) (w x v : Walk)
    → After g d w x
    → AfterAll g ds x v
    → AfterAll g (d ∷ ds) w v
AfterAll-cons g d ds w x v a r = record {
  sound = r.sound;
  stack = r.stack ∙ a.stack;
  has = λ u m. elim (Bool-cases (d == u)) [
    | inl e ↦ subst (λ k. Has v.done k) ((==_iff d u).0 e) (r.grows d a.has)
    | inr n ↦ r.has u (ground arith)
  ];
  grows = λ u m. r.grows u (a.grows u m);
  only = λ u m. elim (r.only u m) [
    | inl m' ↦ elim (a.only u m') [ inl m'' ↦ inl m'' | inr p ↦ inr (d, rw (==_refl d) refl, p) ]
    | inr (k, m', p) ↦ inr (k, ground arith, p)
  ];
}

walk_all-AfterAll :
    (g : DepsOf) (go : TemplateId → Walk → Option Walk) (stack ds : List TemplateId) (w v : Walk)
    → ((d : TemplateId) (x y : Walk)
        → Has ds d
        → x.on_stack ≡ stack
        → Sound g x
        → go d x ≡ some y
        → After g d x y)
    → w.on_stack ≡ stack
    → Sound g w
    → walk_all go ds w ≡ some v
    → AfterAll g ds w v
unfolding walk_all
walk_all-AfterAll g go stack [] w v all h s e =
    let same : w ≡ v = ground arith in
    subst (λ x. AfterAll g [] w x) same
      (record {
        sound = s;
        stack = refl;
        has = λ d m. absurd (cc);
        grows = λ u m. m;
        only = λ u m. inl m;
      })
walk_all-AfterAll g go stack (d ∷ ds) w v all h s e = elim (Option-cases (go d w)) [
  | inl n ↦ absurd (cc (rw (n, walk_all) at e))
  | inr (x, y) ↦
      let a = all d w x (rw (==_refl d) refl) h s y in
      AfterAll-cons g d ds w x v a (
        walk_all-AfterAll g go stack ds x v (λ k p q m. all k p q (ground arith)) (a.stack ∙ h)
          a.sound (rw (y, walk_all) at e))
]

-- A stack from which the template is reached, and which it is not on.
abbrev IsAbove : DepsOf → Walk → TemplateId → Type 0
IsAbove g w t =
    (contains w.on_stack t ≡ false) × ((s : TemplateId) → Has w.on_stack s → Reach g s t)

-- Going down an edge of an acyclic graph.
IsAbove-step :
    (g : DepsOf) (w : Walk) (t d : TemplateId)
    → Acyclic g
    → IsAbove g w t
    → Has (next_of g t) d
    → IsAbove g (record w { on_stack = t ∷ w.on_stack }) d
IsAbove-step g w t d a (n, r) e =
    let down : (s : TemplateId) → Has (t ∷ w.on_stack) s → Reach g s t = λ s m.
      elim (Bool-cases (t == s)) [
        | inl same ↦ subst (λ k. Reach g k t) ((==_iff t s).0 same) here
        | inr other ↦ r s (ground arith)
      ] in
    (
      elim (Bool-cases (contains (t ∷ w.on_stack) d)) [
        | inl m ↦ absurd (a t d e (down d m))
        | inr m ↦ m
      ],
      λ s m. Reach-trans g (down s m) (step e here),
    )

-- What the loop over the dependencies leaves is finished by emitting the template.
emit-After :
    (g : DepsOf) (t : TemplateId) (w v : Walk)
    → Acyclic g
    → contains w.on_stack t ≡ false
    → contains w.done t ≡ false
    → AfterAll g (next_of g t) (record w { on_stack = t ∷ w.on_stack }) v
    → After g t w (emit t v)
emit-After g t w v a n new r =
    let absent : contains v.done t ≡ false = elim (Bool-cases (contains v.done t)) [
      | inl m ↦ elim (r.only t m) [ inl m' ↦ absurd (cc) | inr (d, e, p) ↦ absurd (a t d e p) ]
      | inr m ↦ m
    ] in
    record {
      sound = record {
        placed =
            Placed-snoc g [] v.out t r.sound.placed refl (sym (r.sound.same t) ∙ absent)
              (λ d e. sym (r.sound.same d) ∙ r.has d e);
        same = λ u. ground (arith, r.sound.same u, contains-append v.out (t ∷ []) u);
      };
      stack =
          subst (λ (l : List TemplateId). keep (λ u. not (u == t)) l ≡ w.on_stack) (sym r.stack)
            (keep-pushed w.on_stack t n);
      has = rw (==_refl t) refl;
      grows = λ u m. ground (arith, r.grows u m);
      only = λ u m. elim (Bool-cases (t == u)) [
        | inl e ↦ inr (subst (λ k. Reach g t k) ((==_iff t u).0 e) here)
        | inr o ↦ elim (r.only u (ground arith)) [
          | inl m' ↦ inl m'
          | inr (d, e, p) ↦ inr (step e p)
        ]
      ];
    }

some_eq : {x y : Walk} → some x ≡ some y → x ≡ y
some_eq h = cc

emitted-inv :
    (t : TemplateId) (r : Option Walk) (v : Walk)
    → emitted t r ≡ some v
    → (x : Walk) × (r ≡ some x) × (emit t x ≡ v)
emitted-inv t none v h = absurd (cc)
emitted-inv t (some x) v h = (x, refl, some_eq h)

inner-AfterAll :
    (fuel : ℕ) (g : DepsOf) (t : TemplateId) (w v : Walk)
    → Sound g w
    → inner fuel g t w ≡ some v
    → ((d : TemplateId) (x y : Walk)
        → Has (next_of g t) d
        → x.on_stack ≡ t ∷ w.on_stack
        → Sound g x
        → walk fuel g d x ≡ some y
        → After g d x y)
    → AfterAll g (next_of g t) (record w { on_stack = t ∷ w.on_stack }) v
unfolding inner
inner-AfterAll fuel g t w v s h all =
    walk_all-AfterAll g (walk fuel g) (t ∷ w.on_stack) (next_of g t)
      (record w { on_stack = t ∷ w.on_stack }) v all refl
      (record { placed = s.placed; same = s.same }) h

walk-After :
    (fuel : ℕ) (g : DepsOf) (t : TemplateId) (w v : Walk)
    → Acyclic g
    → IsAbove g w t
    → Sound g w
    → walk fuel g t w ≡ some v
    → After g t w v
walk-After zero g t w v a i s h = absurd (unfold walk in cc)
walk-After (suc fuel) g t w v a i s h =
    elim (Bool-cases (contains w.done t || contains w.on_stack t)) [
      | inl e ↦
          let same : w ≡ v = some_eq (sym (walk-back fuel g t w e) ∙ h) in
          subst (λ x. After g t w x) same
            (record {
              sound = s;
              stack = refl;
              has = ground arith;
              grows = λ u m. m;
              only = λ u m. inl m;
            })
      | inr e ↦
          let (x, y, z) = emitted-inv t (inner fuel g t w) v (sym (walk-on fuel g t w e) ∙ h) in
          subst (λ k. After g t w k) z
            (emit-After g t w x a i.0 (ground arith) (
              inner-AfterAll fuel g t w x s y (λ d p q m k l f.
                walk-After fuel g d p q a
                  (subst
                    (λ (l : List TemplateId).
                      (contains l d ≡ false) × ((u : TemplateId) → Has l u → Reach g u d))
                    (sym k) (IsAbove-step g w t d a i m))
                  l f)))
    ]

pop-snoc : (ts : List TemplateId) (t : TemplateId) → pop (ts ++ t ∷ []) ≡ ts
pop-snoc [] t = refl
pop-snoc (s ∷ []) t = refl
pop-snoc (s ∷ u ∷ ts) t = ap (λ (l : List TemplateId). s ∷ l) (pop-snoc (u ∷ ts) t)

Placed-last :
    (g : DepsOf) (before ts : List TemplateId) (t : TemplateId)
    → Placed g before (ts ++ t ∷ [])
    → (contains before t ≡ false) × (contains ts t ≡ false)
Placed-last g before [] t p = (p.0, refl)
Placed-last g before (s ∷ ts) t (a, b, p) = ground (arith, Placed-last g (s ∷ before) ts t p)

Placed-closed :
    (g : DepsOf) (before ts : List TemplateId) (t d : TemplateId)
    → Placed g before ts
    → Has ts t
    → Has (next_of g t) d
    → (contains before d || contains ts d) ≡ true
Placed-closed g before [] t d p m e = absurd (cc)
Placed-closed g before (s ∷ ts) t d (a, b, p) m e = elim (Bool-cases (s == t)) [
  | inl same ↦
      let k = b d (subst (λ u. Has (next_of g u) d) (sym ((==_iff s t).0 same)) e) in ground arith
  | inr other ↦ ground (arith, Placed-closed g (s ∷ before) ts t d p (ground arith) e)
]

Reach-Has :
    (g : DepsOf) (ts : List TemplateId) {a b : TemplateId}
    → Placed g [] ts
    → Reach g a b
    → Has ts a
    → Has ts b
Reach-Has g ts p here m = m
Reach-Has g ts p (step {t} {u} e r) m = Reach-Has g ts p r (Placed-closed g [] ts t u p m e)

-- For an acyclic graph the order exists, and followed by the root it has every template once and
-- behind all that it depends on; it holds exactly the templates other than the root that the root
-- needs, directly or not.
pub expansion_order_lem :
    (g : DepsOf) (root : TemplateId)
    → Acyclic g
    → (order : List TemplateId) × (expansion_order g root ≡ some order)
      × Placed g [] (order ++ root ∷ [])
      × ((u : TemplateId) → Has order u ↔ ((u ≢ root) × Reach g root u))
expansion_order_lem g root a =
    let (v, e, _) =
      walk-Ends (length g + 2) g root no_walk [] refl (omega (arith, fresh_le g [])) in
    let more : length g + 2 ≡ suc (length g + 1) = omega arith in
    let e' = subst (λ n. walk n g root no_walk ≡ some v) more e in
    let (x, y, z) =
      emitted-inv root (inner (length g + 1) g root no_walk) v
        (sym (walk-on (length g + 1) g root no_walk refl) ∙ e') in
    let r =
      walk-After (length g + 2) g root no_walk v a (refl, λ s m. absurd (cc))
        (record { placed = tt; same = λ u. refl }) e in
    let out : v.out ≡ x.out ++ root ∷ [] = ap (λ (w : Walk). w.out) (sym z) in
    let placed = subst (λ l. Placed g [] l) out r.sound.placed in
    let (_, absent) = Placed-last g [] x.out root placed in
    (
      x.out,
      unfold expansion_order in
          rw e (ap (λ l. some (pop l)) out ∙ ap (λ l. some l) (pop-snoc x.out root)),
      placed,
      λ u. (
        λ m. (
          λ same. absurd (cc),
          elim (r.only u (
              r.sound.same u
              ∙ ap (λ l. contains l u) out
              ∙ ground (arith, contains-append x.out (root ∷ []) u))) [
                | inl none_done ↦ absurd (cc)
                | inr p ↦ p
              ],
        ),
        λ (n, p). ground (
          arith,
          Reach-Has g (x.out ++ root ∷ []) placed p
              (ground (arith, contains-append x.out (root ∷ []) root)),
          contains-append x.out (root ∷ []) u,
          ==_iff root u,
        ),
      ),
    )
