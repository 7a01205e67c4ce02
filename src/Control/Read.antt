-- ===== src/Control/Read.antt =====
-- barcode.rs and control.rs together: from the keys of a scanner to the commands that were printed.
use mathlib.Core.List.{append_assoc, append_cancel_right}
use taskologic.Prelude.{
  ℕ, ◌-◌, ◌≤◌, ◌≡◌, refl, ap, sym, ◌∙◌, true, false, List, [], ◌∷◌, ◌++◌, arith,
}
use taskologic.Barcode.Detector.{
  ScanDetector, half_frame, frame_open, Feed, char, enter, held, push, push_all, start, start_with,
  char_in,
}
use taskologic.Barcode.Detector.Valid.{IsIdle}
use taskologic.Barcode.Detector.Steps.{at, done_at, push-at}
use taskologic.Barcode.Detector.Prefix.{push-idle}
use taskologic.Control.{Control, body, encode}
use taskologic.Control.Parse.{parse, parsed}
use taskologic.Control.Layout.{code128_modules, chunks}
use taskologic.Control.Pieces.{stitched, chunks-stitched}
use taskologic.Control.Body.{IsFrame, parse-body}
use taskologic.Control.Scan.{Keys, letters, IsSteady, silent, is_closed, open_at, one_held, in_body}

-- The opening of a frame, from a detector that is idle and has no prefix.
module _ (d : ScanDetector) (n0 : ℕ) where
  push-open :
      IsIdle d → d.prefix ≡ [] → push d (char b'-') n0 ≡ (at d half_frame (b'-' ∷ []) [] n0, held)
  push-open i e =
      push-idle d n0 i b'-'
      ∙ unfold start start_with in
        (ap (λ p. start_with p (record d { swallow_enter = false }) b'-' n0) e ∙ ground arith)

  push-second :
      (n1 : ℕ)
      → n1 - n0 ≤ d.timeout_ms
      → push (at d half_frame (b'-' ∷ []) [] n0) (char b'-') n1
        ≡ (at d frame_open (b'-' ∷ b'-' ∷ []) [] n0, held)
  push-second n1 h = push-at d n0 n1 h half_frame (b'-' ∷ []) [] b'-' tt ∙ unfold char_in in refl

  push-version_1 :
      (n2 : ℕ)
      → n2 - n0 ≤ d.timeout_ms
      → push (at d frame_open (b'-' ∷ b'-' ∷ []) [] n0) (char b'1') n2
        ≡ (open_at d false (b'-' ∷ b'-' ∷ b'1' ∷ []) [] n0, held)
  push-version_1 n2 h =
      push-at d n0 n2 h frame_open (b'-' ∷ b'-' ∷ []) [] b'1' tt ∙ unfold char_in in refl

letters-append : (s t : Keys) → letters (s ++ t) ≡ letters s ++ letters t
letters-append [] t = refl
letters-append ((char c, now) ∷ s) t = ap (λ u. c ∷ u) (letters-append s t)
letters-append ((enter, now) ∷ s) t = letters-append s t

-- The opening frame and the version, then keys, and the last dash.
abbrev pub framed : ℕ → ℕ → ℕ → Keys → ℕ → Keys
framed n0 n1 n2 s n = (char b'-', n0) ∷ (char b'-', n1) ∷ (char b'1', n2) ∷ s ++ (char b'-', n) ∷ []

body_of :
    (cs : List Control) (n0 n1 n2 n : ℕ) (s : Keys)
    → letters (framed n0 n1 n2 s n) ≡ encode cs
    → letters s ≡ body cs ++ b'-' ∷ []
unfolding encode
body_of cs n0 n1 n2 n s e = append_cancel_right (letters s) (body cs ++ b'-' ∷ []) (b'-' ∷ []) (
    sym (letters-append s ((char b'-', n) ∷ []))
    ∙ (cc)
    ∙ sym (append_assoc (body cs) (b'-' ∷ []) (b'-' ∷ [])))

-- From the scanner to the commands: where a scanner types the pieces of a printed code one after the
-- other, with Enter between them or not, into an idle detector that expects no prefix, and the keys come
-- in time, all keys are held back and the last yields the frame, whose body parses to the commands
-- that were printed. The body of the code has no two dashes in a row and none at its end. The
-- detector then says that the scan took no time at all, however long it took.
pub push_all-chunks :
    (d : ScanDetector) (cs : List Control) (dots n0 n1 n2 n : ℕ) (s : Keys)
    → IsIdle d
    → d.prefix ≡ []
    → IsFrame cs
    → is_closed false (body cs) ≡ true
    → code128_modules 3 ≤ dots
    → letters (framed n0 n1 n2 s n) ≡ stitched (chunks (encode cs) dots)
    → n1 - n0 ≤ d.timeout_ms
    → n2 - n0 ≤ d.timeout_ms
    → IsSteady d n0 (s ++ (char b'-', n) ∷ [])
    → (push_all d (framed n0 n1 n2 s n)
        ≡ (done_at d n n, held ∷ held ∷ held ∷ silent s ++ Feed.frame (body cs) ∷ []))
      × (parse (body cs) ≡ parsed cs)
push_all-chunks d cs dots n0 n1 n2 n s i p f z w e h1 h2 h =
    let (same, _) = chunks-stitched (encode cs) dots w in
    let b = body_of cs n0 n1 n2 n s (e ∙ same) in
    let inner = in_body d n (b'-' ∷ b'-' ∷ b'1' ∷ []) s n0 false [] (body cs) b z h in
    (
      one_held d _ _ (char b'-') n0 _ _ (push-open d n0 i p) (
          one_held _ _ _ (char b'-') n1 _ _ (push-second d n0 n1 h1)
            (one_held _ _ _ (char b'1') n2 _ _ (push-version_1 d n0 n2 h2) inner)),
      parse-body cs f,
    )
