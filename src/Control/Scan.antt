-- ===== src/Control/Scan.antt =====
-- barcode.rs and control.rs together: a printed control code, scanned in pieces, comes back as a frame.
use mathlib.Core.List.{append_assoc, append-nil}
use taskologic.Prelude.{
  ℕ, ◌-◌, ◌≡◌, refl, ap, sym, ◌∙◌, subst, inl, inr, Bool, true, false, not, ◌&&◌, ◌||◌, List, [],
  ◌∷◌, ◌++◌, arith,
}
use taskologic.Prelude.Tests.{◌==◌, leb, if◌then◌else◌, Bool-cases}
use taskologic.Prelude.Text.{Text}
use taskologic.Barcode.Detector.{
  ScanKey, ScanDetector, in_frame, Feed, char, enter, held, frame, push, push_key, push_char,
  push_enter, enter_in, char_in, push_all, expire, expire_phase, finish_frame, reset, nothing,
}
use taskologic.Barcode.Detector.Detect.{push_all-cons}
use taskologic.Barcode.Detector.Steps.{at, done_at, push-fresh}

abbrev pub Keys : Type 0
Keys = List (ScanKey × ℕ)

-- What is typed, without Enter.
abbrev pub letters : Keys → Text
letters [] = []
letters ((char c, now) ∷ s) = c ∷ letters s
letters ((enter, now) ∷ s) = letters s

-- No key of an open frame comes later than the frame's timeout after the one before it.
abbrev pub IsSteady : ScanDetector → ℕ → Keys → Type 0
IsSteady d t [] = Unit
IsSteady d t ((key, now) ∷ s) =
    ((d.frame_timeout_ms == 0 || leb (now - t) d.frame_timeout_ms) ≡ true) × IsSteady d now s

-- All keys are held.
abbrev pub silent : Keys → List Feed
silent [] = []
silent (k ∷ s) = held ∷ silent s

-- A body that the closing frame does not come early in: no two dashes in a row, and none at the end.
-- The flag tells that a dash came before.
abbrev pub is_closed : Bool → Text → Bool
is_closed dash [] = not dash
is_closed dash (c ∷ s) =
    let after = is_closed true s in
    let other = is_closed false s in if c == b'-' then not dash && after else other

abbrev pub pending : Bool → Text
pending true = b'-' ∷ []
pending false = []

-- An open frame.
abbrev pub open_at : ScanDetector → Bool → Text → Text → ℕ → ScanDetector
open_at d dash hs bs t = at d (in_frame dash) hs bs t

module _ (d : ScanDetector) (t now : ℕ)
    (h : (d.frame_timeout_ms == 0 || leb (now - t) d.frame_timeout_ms) ≡ true) where
  expire-open :
      (dash : Bool) (hs bs : Text)
      → expire (open_at d dash hs bs t) now ≡ (open_at d dash hs bs t, nothing)
  unfolding expire expire_phase
  expire-open dash hs bs = rw h refl

  push-letter :
      (dash : Bool) (hs bs : Text) (c : ℕ)
      → (c == b'-') ≡ false
      → push (open_at d dash hs bs t) (char c) now
        ≡ (open_at d false hs ((if dash then bs ++ b'-' ∷ [] else bs) ++ c ∷ []) now, held)
  unfolding push_key push_char char_in
  push-letter dash hs bs c n =
      push-fresh _ (char c) now (expire-open dash hs bs) ∙ rw (push_key, push_char, char_in, n) refl

  push-dash :
      (hs bs : Text)
      → push (open_at d false hs bs t) (char b'-') now ≡ (open_at d true hs bs now, held)
  unfolding push_key push_char char_in
  push-dash hs bs = push-fresh _ (char b'-') now (expire-open false hs bs) ∙ refl

  push-return :
      (dash : Bool) (hs bs : Text)
      → push (open_at d dash hs bs t) enter now ≡ (open_at d dash hs bs now, held)
  unfolding push_key push_enter enter_in
  push-return dash hs bs = push-fresh _ enter now (expire-open dash hs bs) ∙ refl

  push-close :
      (hs bs : Text) → push (open_at d true hs bs t) (char b'-') now ≡ (done_at d now now, frame bs)
  unfolding push_key push_char char_in finish_frame reset
  push-close hs bs = push-fresh _ (char b'-') now (expire-open true hs bs) ∙ refl

-- A key that is held, and the keys after it.
pub one_held :
    (d e f : ScanDetector) (key : ScanKey) (now : ℕ) (rest : Keys) (fs : List Feed)
    → push d key now ≡ (e, held)
    → push_all e rest ≡ (f, fs)
    → push_all d ((key, now) ∷ rest) ≡ (f, held ∷ fs)
one_held d e f key now rest fs p q =
    push_all-cons d e key now held rest p
    ∙ ap (λ (r : ScanDetector × List Feed). (r.0, held ∷ r.1)) q

last_key :
    (d e : ScanDetector) (key : ScanKey) (now : ℕ) (fed : Feed)
    → push d key now ≡ (e, fed)
    → push_all d ((key, now) ∷ []) ≡ (e, fed ∷ [])
last_key d e key now fed p = push_all-cons d e key now fed [] p ∙ unfold push_all in refl

module _ (d : ScanDetector) (n : ℕ) (hs : Text) where
  abbrev pub Closes : ScanDetector → Keys → Text → Type 0
  Closes e s b = push_all e (s ++ (char b'-', n) ∷ []) ≡ (done_at d n n, silent s ++ frame b ∷ [])

  -- Behind the first dash of the closing frame nothing but Enter comes before the second.
  close :
      (s : Keys) (t : ℕ) (bs : Text)
      → letters s ≡ []
      → IsSteady d t (s ++ (char b'-', n) ∷ [])
      → Closes (open_at d true hs bs t) s bs
  close [] t bs e (h, _) = last_key _ _ (char b'-') n (frame bs) (push-close d t n h hs bs)
  close ((char c, now) ∷ s) t bs e h = absurd (cc)
  close ((enter, now) ∷ s) t bs e (h, k) =
      one_held _ (open_at d true hs bs now) _ enter now _ _ (push-return d t now h true hs bs)
        (close s now bs e k)

  -- A letter of the body, which is no dash, and one that is.
  joined :
      (dash : Bool) (bs b : Text) (c : ℕ)
      → ((if dash then bs ++ b'-' ∷ [] else bs) ++ c ∷ []) ++ b ≡ bs ++ (pending dash ++ c ∷ b)
  joined true bs b c =
      append_assoc (bs ++ b'-' ∷ []) (c ∷ []) b ∙ append_assoc bs (b'-' ∷ []) (c ∷ b)
  joined false bs b c = append_assoc bs (c ∷ []) b

  closed_letter :
      (dash : Bool) (a : ℕ) (b : Text)
      → (a == b'-') ≡ false
      → is_closed dash (a ∷ b) ≡ true
      → is_closed false b ≡ true
  closed_letter dash a b o z = ground (arith, z)

  closed_dash :
      (dash : Bool) (a : ℕ) (b : Text)
      → (a == b'-') ≡ true
      → is_closed dash (a ∷ b) ≡ true
      → (dash ≡ false) × (is_closed true b ≡ true)
  closed_dash dash a b y z = ground (arith, z)

  pub in_body :
      (s : Keys) (t : ℕ) (dash : Bool) (bs b : Text)
      → letters s ≡ b ++ b'-' ∷ []
      → is_closed dash b ≡ true
      → IsSteady d t (s ++ (char b'-', n) ∷ [])
      → Closes (open_at d dash hs bs t) s (bs ++ (pending dash ++ b))
  in_body [] t dash bs [] e z h = absurd (cc)
  in_body [] t dash bs (a ∷ b) e z h = absurd (cc)
  in_body ((enter, now) ∷ s) t dash bs b e z (h, k) =
      one_held _ (open_at d dash hs bs now) _ enter now _ _ (push-return d t now h dash hs bs)
        (in_body s now dash bs b e z k)
  in_body ((char c, now) ∷ s) t true bs [] e z (h, k) = absurd (cc)
  in_body ((char c, now) ∷ s) t false bs [] e z (h, k) =
      let c' : c ≡ b'-' = cc in
      let e' : letters s ≡ [] = cc in
      one_held _ (open_at d true hs bs now) _ (char c) now _ _ (rw c' (push-dash d t now h hs bs))
        (subst (Closes (open_at d true hs bs now) s) (sym (append-nil bs)) (close s now bs e' k))
  in_body ((char c, now) ∷ s) t dash bs (a ∷ b) e z (h, k) = elim (Bool-cases (a == b'-')) [
    | inl y ↦
        let (f, z') = closed_dash dash a b y z in
        let c' : c ≡ b'-' = same ∙ ground arith in
        let a' : a ≡ b'-' = ground arith in
        rw f (
          one_held _ (open_at d true hs bs now) _ (char c) now _ _
            (rw c' (push-dash d t now h hs bs)) (rw a' (in_body s now true bs b tail z' k)))
    | inr o ↦
        one_held _ (open_at d false hs ((if dash then bs ++ b'-' ∷ [] else bs) ++ c ∷ []) now) _
          (char c) now _ _ (push-letter d t now h dash hs bs c (rw same o))
          (subst
            (Closes (open_at d false hs ((if dash then bs ++ b'-' ∷ [] else bs) ++ c ∷ []) now) s)
            (joined dash bs b c ∙ ap (λ x. bs ++ (pending dash ++ x ∷ b)) same)
            (in_body s now false ((if dash then bs ++ b'-' ∷ [] else bs) ++ c ∷ []) b tail
              (closed_letter dash a b o z) k))
  ]
    where
      same : c ≡ a
      same = cc

      tail : letters s ≡ b ++ b'-' ∷ []
      tail = cc
