-- ===== src/Barcode/Detector/Prefix.antt =====
-- The scanner's prefix in front of a payload, and the whole of a scan.
use native.Mathlib.Numerals.{add-one}
use taskologic.Prelude.{
  ℕ, suc, ◌+◌, ◌<◌, ◌≡◌, refl, ap, sym, ◌∙◌, subst, some, true, false, [], ◌∷◌, ◌++◌, map, arith,
}
use taskologic.Prelude.Tests.{◌==◌, if◌then◌else◌}
use taskologic.Prelude.Lists.{length, drop, drop-cons, length-append}
use taskologic.Prelude.Result.{ok}
use taskologic.Prelude.Text.{Text, to_ascii_uppercase}
use taskologic.Barcode.{magic, action_code}
use taskologic.Barcode.Payload
use taskologic.Barcode.Payload.{ScanPayload, encode, IsPayload}
use taskologic.Barcode.Payload.Laws.{encoding, encode-inv, parse-eq}
use taskologic.Barcode.Detector.{
  ScanDetector, Feed, prefix_at, prefix_done, half_magic, nothing, start_with, start, expire,
  char_in, push_key, push_char, push, push_all, char, scan, held,
}
use taskologic.Barcode.Detector.Valid.{IsIdle}
use taskologic.Barcode.Detector.Steps.{at, push-fresh, push-prefix}
use taskologic.Barcode.Detector.Detect.{
  Typed, typed, chars, quiet, InTime, AllUpper, Detects, Detects-held, detect-half_magic,
  detect-prefix_done,
}

InTime-append :
    (d : ScanDetector) (t : ℕ) (ps ms : Typed)
    → InTime d t (ps ++ ms)
    → InTime d t ps × InTime d t ms
InTime-append d t [] ms h = (tt, h)
InTime-append d t ((c, now) ∷ ps) ms (h, hs) =
    let (a, b) = InTime-append d t ps ms hs in ((h, a), b)

-- What follows a prefix that was read.
module _ (d : ScanDetector) (t : ℕ) (k : ℕ × ℕ) (ms : Typed) (fed : Feed)
    (next : (hs : Text) → Detects (at d prefix_done hs [] t) (k ∷ ms) fed) where
  -- From place `n` of the prefix, the rest of it still to come.
  detect-prefix :
      (ps : Typed) (n : ℕ) (hs : Text)
      → drop n d.prefix ≡ chars ps
      → 0 < length ps
      → InTime d t ps
      → Detects (at d (prefix_at n) hs [] t) (ps ++ k ∷ ms) fed
  detect-prefix [] n hs e pos h = absurd (omega arith)
  detect-prefix ((c, now) ∷ []) n hs e pos (h, _) =
      let (g, _, l) = drop-cons n d.prefix c [] e in
      let last : (n + 1 == length d.prefix) ≡ true = ground (arith, l) in
      Detects-held _ _ c now k ms fed (push-prefix d t now h n c hs g ∙ rw last refl)
        (next (hs ++ c ∷ []))
  detect-prefix ((c, now) ∷ j ∷ ps) n hs e pos (h, hs') =
      let (g, e', l) = drop-cons n d.prefix c (chars (j ∷ ps)) e in
      let more : (n + 1 == length d.prefix) ≡ false = ground (arith, l) in
      Detects-held _ _ c now j (ps ++ k ∷ ms) fed (push-prefix d t now h n c hs g ∙ rw more refl)
        (detect-prefix (j ∷ ps) (n + 1) (hs ++ c ∷ []) (rw (add-one n) e') (omega arith) hs')

-- The first key, where nothing runs.
module _ (d : ScanDetector) (now : ℕ) (i : IsIdle d) where
  expire-idle : expire d now ≡ (d, nothing)
  unfolding expire
  expire-idle = ground arith

  pub push-idle : (c : ℕ) → push d (char c) now ≡ start (record d { swallow_enter = false }) c now
  push-idle c =
      push-fresh d (char c) now expire-idle
      ∙ unfold push_key push_char in
        ap (λ ph. char_in ph (record d { swallow_enter = false }) c now) i.0
        ∙ unfold char_in in refl

  push-magic : d.prefix ≡ [] → push d (char b'.') now ≡ (at d half_magic (b'.' ∷ []) [] now, held)
  push-magic e =
      push-idle b'.'
      ∙ unfold start start_with in
        (ap (λ p. start_with p (record d { swallow_enter = false }) b'.' now) e ∙ ground arith)

  push-first :
      (c : ℕ) (rest : Text)
      → d.prefix ≡ c ∷ rest
      → push d (char c) now
        ≡ (at d (if length rest == 0 then prefix_done else prefix_at 1) (c ∷ []) [] now, held)
  push-first c rest e =
      push-idle c
      ∙ unfold start start_with in
        (ap (λ p. start_with p (record d { swallow_enter = false }) c now) e ∙ ground arith)

-- The time of the first key.
abbrev pub begins : Typed → ℕ
begins [] = 0
begins ((c, now) ∷ s) = now

-- A scan: the prefix, the magic, the version and the rest of a payload.
scan-detected :
    (d : ScanDetector) (ps rest : Typed) (n0 n1 n2 : ℕ)
    → IsIdle d
    → chars ps ≡ d.prefix
    → length rest ≡ 8
    → AllUpper (chars rest)
    → let s = ps ++ (b'.', n0) ∷ (b'.', n1) ∷ (b'1', n2) ∷ rest in
      InTime d (begins s) s → Detects d s (scan (Payload.parse (magic ++ b'1' ∷ chars rest)))
scan-detected d [] rest n0 n1 n2 i e z u (h0, (h1, (h2, h))) =
    Detects-held d (at d half_magic (b'.' ∷ []) [] n0) b'.' n0 (b'.', n1) ((b'1', n2) ∷ rest) _
      (push-magic d n0 i (sym e)) (detect-half_magic d n0 rest n1 n2 z u h2 h (b'.' ∷ []) h1)
scan-detected d ((c, now) ∷ []) rest n0 n1 n2 i e z u (hc, (h0, (h1, (h2, h)))) =
    Detects-held d (at d prefix_done (c ∷ []) [] now) c now (b'.', n0)
      ((b'.', n1) ∷ (b'1', n2) ∷ rest) _ (push-first d now i c [] (sym e))
      (detect-prefix_done d now rest n1 n2 z u h2 h (c ∷ []) n0 h0 h1)
scan-detected d ((c, now) ∷ k ∷ ps) rest n0 n1 n2 i e z u (hc, h) =
    let (hp, (h0, (h1, (h2, hr)))) =
      InTime-append d now (k ∷ ps) ((b'.', n0) ∷ (b'.', n1) ∷ (b'1', n2) ∷ rest) h in
    Detects-held d (at d (prefix_at 1) (c ∷ []) [] now) c now k
      (ps ++ (b'.', n0) ∷ (b'.', n1) ∷ (b'1', n2) ∷ rest) _
      (push-first d now i c (chars (k ∷ ps)) (sym e) ∙ ground arith)
      (detect-prefix d now (b'.', n0) ((b'.', n1) ∷ (b'1', n2) ∷ rest) _
        (λ hs. detect-prefix_done d now rest n1 n2 z u h2 hr hs n0 h0 h1) (k ∷ ps) 1 (c ∷ [])
        (rw (← e) refl) (omega arith) hp)

AllUpper-of_map : (s : Text) → map to_ascii_uppercase s ≡ s → AllUpper s
AllUpper-of_map [] e = tt
AllUpper-of_map (c ∷ s) e = (cc, AllUpper-of_map s (cc))

length-chars : (s : Typed) → length (chars s) ≡ length s
length-chars [] = refl
length-chars ((c, now) ∷ s) = ap suc (length-chars s)

-- A typed text that is an encoding, taken apart.
from_encoding :
    (d : ScanDetector) (ps ms : Typed) (rest : Text)
    → IsIdle d
    → chars ps ≡ d.prefix
    → chars ms ≡ b'.' ∷ b'.' ∷ b'1' ∷ rest
    → length rest ≡ 8
    → AllUpper rest
    → InTime d (begins (ps ++ ms)) (ps ++ ms)
    → Detects d (ps ++ ms) (scan (Payload.parse (chars ms)))
from_encoding d ps [] rest i e m z u h = absurd (cc)
from_encoding d ps (k ∷ []) rest i e m z u h = absurd (cc)
from_encoding d ps (k ∷ l ∷ []) rest i e m z u h = absurd (cc)
from_encoding d ps ((a, n0) ∷ (b, n1) ∷ (c, n2) ∷ ms) rest i e m z u h =
    let pa : a ≡ b'.' = cc in
    let pb : b ≡ b'.' = cc in
    let pc : c ≡ b'1' = cc in
    let r : chars ms ≡ rest = cc in
    rw (pa, pb, pc)
      (scan-detected d ps ms n0 n1 n2 i e (sym (length-chars ms) ∙ ap length r ∙ z)
        (subst AllUpper (sym r) u) (rw (pa, pb, pc) at h))

-- The keys of an encoded payload, behind the scanner's prefix and each within the timeout of the
-- first, are all held back but the last, which yields the payload; then nothing is left.
pub push_all-encode :
    (d : ScanDetector) (p : ScanPayload) (ps ms : Typed)
    → IsIdle d
    → IsPayload p
    → chars ps ≡ d.prefix
    → encode p ≡ some (chars ms)
    → InTime d (begins (ps ++ ms)) (ps ++ ms)
    → ((push_all d (typed (ps ++ ms))).1 ≡ quiet (ps ++ ms) (scan (ok p)))
      × IsIdle (push_all d (typed (ps ++ ms))).0
push_all-encode d p ps ms i v e m h =
    let (c, _, shape) = encode-inv p (chars ms) m in
    let (t, m', trimmed, upper, read) = encoding p v in
    let same : t ≡ chars ms = cc in
    let rest = action_code p.action ∷ p.short_id.bytes ++ c ∷ [] in
    let size : length rest ≡ 8 = omega (arith, length-append p.short_id.bytes (c ∷ []), v.id.six) in
    let all =
      AllUpper-of_map (b'.' ∷ b'.' ∷ b'1' ∷ rest)
        (subst (λ s. map to_ascii_uppercase s ≡ s) (same ∙ shape) upper) in
    let parsed : Payload.parse (chars ms) ≡ ok p =
      subst (λ s. Payload.parse s ≡ ok p) same (parse-eq t ∙ rw (trimmed, upper) read) in
    subst (λ r. Detects d (ps ++ ms) (scan r)) parsed
      (from_encoding d ps ms rest i e shape size all.1.1.1 h)
