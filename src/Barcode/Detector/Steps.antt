-- ===== src/Barcode/Detector/Steps.antt =====
-- One key at a time, on the way to a payload.

use taskologic.Prelude.{
  ℕ, ◌+◌, ◌-◌, ◌≤◌, ◌<◌, ◌≡◌, refl, ◌∙◌, none, some, false, [], ◌∷◌, ◌++◌, arith,
}
use taskologic.Prelude.Tests.{◌==◌, if◌then◌else◌}
use taskologic.Prelude.Lists.{length, get_elem?, length-append}
use taskologic.Prelude.Text.{Text, to_ascii_uppercase}
use taskologic.Barcode.{magic, v1_len, payload_len}
use taskologic.Barcode.Payload
use taskologic.Barcode.Detector.{
  ScanKey, ScanDetector, Phase, idle, prefix_at, prefix_done, half_magic, version, body_of,
  in_frame, nothing, reset, expire_phase, expire, finish, char_in, push_char, push_key, push, char,
  scan, held,
}

-- The detector `d` in a phase, begun at time `t`.
abbrev pub at : ScanDetector → Phase → Text → Text → ℕ → ScanDetector
at d ph hs bs t = record d {
  phase = ph;
  held_chars = hs;
  body = bs;
  since = some t;
  swallow_enter = false;
}

-- The detector `d` behind a payload that was begun at `t` and complete at `now`.
abbrev pub done_at : ScanDetector → ℕ → ℕ → ScanDetector
done_at d t now = record d {
  phase = idle;
  held_chars = [];
  body = [];
  since = none;
  swallow_enter = d.enter_terminates;
  last_scan_ms = some (now - t);
}

-- The phases that the plain timeout is for.
abbrev pub IsQuick : Phase → Type 0
IsQuick (in_frame dash) = ⊥
IsQuick _ = Unit {0}

-- A match that is being made in time is not stale.
pub expire-fresh :
    (d : ScanDetector) (ph : Phase) (hs bs : Text) (t now : ℕ)
    → now - t ≤ d.timeout_ms
    → IsQuick ph
    → expire (at d ph hs bs t) now ≡ (at d ph hs bs t, nothing)
unfolding expire expire_phase
expire-fresh d idle hs bs t now h k = refl
expire-fresh d (in_frame dash) hs bs t now h k = absurd k
expire-fresh d _ hs bs t now h k = ground arith

pub push-fresh :
    (d : ScanDetector) (key : ScanKey) (now : ℕ)
    → expire d now ≡ (d, nothing)
    → push d key now ≡ push_key key d now
unfolding push
push-fresh d key now e = rw (e, push) refl

module _ (d : ScanDetector) (t now : ℕ) (h : now - t ≤ d.timeout_ms) where
  pub push-at :
      (ph : Phase) (hs bs : Text) (c : ℕ)
      → IsQuick ph
      → push (at d ph hs bs t) (char c) now ≡ char_in ph (at d ph hs bs t) c now
  push-at ph hs bs c k =
      push-fresh (at d ph hs bs t) (char c) now (expire-fresh d ph hs bs t now h k)
      ∙ unfold push_key push_char in refl

  -- The next character of the prefix, and the last one.
  pub push-prefix :
      (n c : ℕ) (hs : Text)
      → get_elem? d.prefix n ≡ some c
      → push (at d (prefix_at n) hs [] t) (char c) now ≡ (
        at d
            (if n + 1 == length d.prefix then prefix_done else prefix_at (n + 1))
            (hs ++ c ∷ [])
            []
            t,
        held,
      )
  push-prefix n c hs e =
      push-at (prefix_at n) hs [] c tt ∙ unfold char_in in rw (e, char_in) (ground arith)

  pub push-prefix_done :
      (hs : Text)
      → push (at d prefix_done hs [] t) (char b'.') now
        ≡ (at d half_magic (hs ++ b'.' ∷ []) [] t, held)
  push-prefix_done hs = push-at prefix_done hs [] b'.' tt ∙ unfold char_in in refl

  pub push-half_magic :
      (hs : Text)
      → push (at d half_magic hs [] t) (char b'.') now ≡ (at d version (hs ++ b'.' ∷ []) [] t, held)
  push-half_magic hs = push-at half_magic hs [] b'.' tt ∙ unfold char_in in refl

  pub push-version :
      (hs : Text)
      → push (at d version hs [] t) (char b'1') now ≡ (at d (body_of v1_len) hs (b'1' ∷ []) t, held)
  push-version hs = push-at version hs [] b'1' tt ∙ unfold char_in payload_len in refl

  -- A character of the body that is not the last.
  pub push-body :
      (hs bs : Text) (c : ℕ)
      → length bs + 3 < v1_len
      → to_ascii_uppercase c ≡ c
      → push (at d (body_of v1_len) hs bs t) (char c) now
        ≡ (at d (body_of v1_len) hs (bs ++ c ∷ []) t, held)
  push-body hs bs c n u =
      push-at (body_of v1_len) hs bs c tt
      ∙ unfold char_in in rw u (ground (arith, length-append bs (c ∷ [])))

  -- The last one.
  pub push-last :
      (hs bs : Text) (c : ℕ)
      → length bs + 3 ≡ v1_len
      → to_ascii_uppercase c ≡ c
      → push (at d (body_of v1_len) hs bs t) (char c) now
        ≡ (done_at d t now, scan (Payload.parse (magic ++ bs ++ c ∷ [])))
  push-last hs bs c n u =
      push-at (body_of v1_len) hs bs c tt
      ∙ unfold char_in finish reset in rw u (ground (arith, length-append bs (c ∷ [])))
