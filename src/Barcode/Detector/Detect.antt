-- ===== src/Barcode/Detector/Detect.antt =====
-- A payload that is typed is detected, and nothing else comes of its keys.
use mathlib.Core.List.{append_assoc}
use taskologic.Prelude.{
  ℕ, ◌+◌, ◌-◌, ◌≤◌, ◌<◌, ◌≡◌, refl, ap, sym, ◌∙◌, subst, List, [], ◌∷◌, ◌++◌, arith,
}
use taskologic.Prelude.Lists.{length, length-append}
use taskologic.Prelude.Text.{Text, to_ascii_uppercase}
use taskologic.Barcode.{magic, v1_len}
use taskologic.Barcode.Payload
use taskologic.Barcode.Payload.{ScanPayload, encode, IsPayload}
use taskologic.Barcode.Detector.{
  ScanKey, ScanDetector, Feed, prefix_done, half_magic, version, body_of, push, push_all, char,
  scan, held,
}
use taskologic.Barcode.Detector.Valid.{IsIdle}
use taskologic.Barcode.Detector.Steps.{
  at, done_at, push-prefix_done, push-half_magic, push-version, push-body, push-last,
}

-- Characters with the times at which they arrive, as keys.
abbrev pub Typed : Type 0
Typed = List (ℕ × ℕ)

abbrev pub typed : Typed → List (ScanKey × ℕ)
typed [] = []
typed ((c, now) ∷ s) = (char c, now) ∷ typed s

abbrev pub chars : Typed → Text
chars [] = []
chars ((c, now) ∷ s) = c ∷ chars s

-- All keys are held but the last, which yields `fed`.
abbrev pub quiet : Typed → Feed → List Feed
quiet [] fed = []
quiet (k ∷ []) fed = fed ∷ []
quiet (k ∷ l ∷ s) fed = held ∷ quiet (l ∷ s) fed

-- Every key comes within the timeout of the time `t`.
abbrev pub InTime : ScanDetector → ℕ → Typed → Type 0
InTime d t [] = Unit
InTime d t ((c, now) ∷ s) = (now - t ≤ d.timeout_ms) × InTime d t s

abbrev pub AllUpper : Text → Type 0
AllUpper [] = Unit
AllUpper (c ∷ s) = (to_ascii_uppercase c ≡ c) × AllUpper s

-- What a run of keys comes to.
abbrev pub Detects : ScanDetector → Typed → Feed → Type 0
Detects d s fed = ((push_all d (typed s)).1 ≡ quiet s fed) × IsIdle (push_all d (typed s)).0

pub push_all-cons :
    (d e : ScanDetector) (key : ScanKey) (now : ℕ) (fed : Feed) (rest : List (ScanKey × ℕ))
    → push d key now ≡ (e, fed)
    → push_all d ((key, now) ∷ rest) ≡ ((push_all e rest).0, fed ∷ (push_all e rest).1)
unfolding push_all
push_all-cons d e key now fed rest p =
    ap (λ (r : ScanDetector × Feed). ((push_all r.0 rest).0, r.1 ∷ (push_all r.0 rest).1)) p

-- One key that is held, and more to come.
pub Detects-held :
    (d e : ScanDetector) (c now : ℕ) (k : ℕ × ℕ) (s : Typed) (fed : Feed)
    → push d (char c) now ≡ (e, held)
    → Detects e (k ∷ s) fed
    → Detects d ((c, now) ∷ k ∷ s) fed
Detects-held d e c now k s fed p (f, i) =
    let step = push_all-cons d e (char c) now held (typed (k ∷ s)) p in
    (
      ap (λ (r : ScanDetector × List Feed). r.1) step ∙ ap (λ fs. held ∷ fs) f,
      subst (λ (r : ScanDetector × List Feed). IsIdle r.0) (sym step) i,
    )

Detects-last :
    (d e : ScanDetector) (c now : ℕ) (fed : Feed)
    → push d (char c) now ≡ (e, fed)
    → IsIdle e
    → Detects d ((c, now) ∷ []) fed
Detects-last d e c now fed p i =
    let step = push_all-cons d e (char c) now fed [] p in
    (
      ap (λ (r : ScanDetector × List Feed). r.1) step
          ∙ ap (λ fs. fed ∷ fs) (unfold push_all in refl),
      subst (λ (r : ScanDetector × List Feed). IsIdle r.0) (sym step) (unfold push_all in i),
    )

module _ (d : ScanDetector) (t : ℕ) where
  -- The rest of a body, to the last character.
  detect-body :
      (s : Typed) (hs bs : Text)
      → length bs + 2 + length s ≡ v1_len
      → 0 < length s
      → AllUpper (chars s)
      → InTime d t s
      → Detects (at d (body_of v1_len) hs bs t) s (scan (Payload.parse (magic ++ bs ++ chars s)))
  detect-body [] hs bs n pos u h = absurd (omega arith)
  detect-body ((c, now) ∷ []) hs bs n pos (u, _) (h, _) =
      Detects-last _ (done_at d t now) c now _ (push-last d t now h hs bs c (omega arith) u)
        (refl, refl, refl, refl)
  detect-body ((c, now) ∷ k ∷ s) hs bs n pos (u, us) (h, hk) =
      Detects-held _ (at d (body_of v1_len) hs (bs ++ c ∷ []) t) c now k s _
        (push-body d t now h hs bs c (omega arith) u)
        (subst
          (λ b.
            Detects (at d (body_of v1_len) hs (bs ++ c ∷ []) t) (k ∷ s)
              (scan (Payload.parse (magic ++ b))))
          (append_assoc bs (c ∷ []) (chars (k ∷ s)))
          (detect-body (k ∷ s) hs (bs ++ c ∷ []) (omega (arith, length-append bs (c ∷ [])))
            (omega arith) us hk))

  -- Behind the magic.
  module _ (rest : Typed) (n1 n2 : ℕ) (size : length rest ≡ 8) (u : AllUpper (chars rest))
      (h2 : n2 - t ≤ d.timeout_ms) (h : InTime d t rest) where
    abbrev pub found : Feed
    found = scan (Payload.parse (magic ++ b'1' ∷ chars rest))

    detect-version : (hs : Text) → Detects (at d version hs [] t) ((b'1', n2) ∷ rest) found
    detect-version hs =
        nonempty rest size (push-version d t n2 h2 hs)
          (detect-body rest hs (b'1' ∷ []) (omega arith) (omega arith) u h)
      where
        nonempty :
            (s : Typed)
            → length s ≡ 8
            → push (at d version hs [] t) (char b'1') n2
              ≡ (at d (body_of v1_len) hs (b'1' ∷ []) t, held)
            → Detects (at d (body_of v1_len) hs (b'1' ∷ []) t) s found
            → Detects (at d version hs [] t) ((b'1', n2) ∷ s) found
        nonempty [] z p q = absurd (omega arith)
        nonempty (k ∷ s) z p q = Detects-held _ _ b'1' n2 k s found p q

    pub detect-half_magic :
        (hs : Text)
        → n1 - t ≤ d.timeout_ms
        → Detects (at d half_magic hs [] t) ((b'.', n1) ∷ (b'1', n2) ∷ rest) found
    detect-half_magic hs h1 =
        Detects-held _ _ b'.' n1 (b'1', n2) rest found (push-half_magic d t n1 h1 hs)
          (detect-version (hs ++ b'.' ∷ []))

    pub detect-prefix_done :
        (hs : Text) (n0 : ℕ)
        → n0 - t ≤ d.timeout_ms
        → n1 - t ≤ d.timeout_ms
        → Detects (at d prefix_done hs [] t) ((b'.', n0) ∷ (b'.', n1) ∷ (b'1', n2) ∷ rest) found
    detect-prefix_done hs n0 h0 h1 =
        Detects-held _ _ b'.' n0 (b'.', n1) ((b'1', n2) ∷ rest) found
          (push-prefix_done d t n0 h0 hs) (detect-half_magic (hs ++ b'.' ∷ []) h1)
