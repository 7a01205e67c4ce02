-- ===== src/Barcode/Detector/Typing.antt =====
-- Typing that is no scan is never lost: what is held back is handed on, in order.
use mathlib.Core.List.{append_assoc, append-nil, map-append}
use taskologic.Prelude.{
  ℕ, ◌-◌, ◌≡◌, refl, ap, sym, ◌∙◌, subst, false, List, [], ◌∷◌, ◌++◌, map, arith, ◌⊎◌, inl, inr,
}
use taskologic.Prelude.Tests.{◌==◌, leb, if◌then◌else◌, Option-cases, if-rule}
use taskologic.Prelude.Lists.{get_elem?}
use taskologic.Prelude.Text.{Text}
use taskologic.Barcode.Detector.{
  ScanKey, ScanDetector, Phase, Feed, Expired, idle, prefix_at, version, body_of, in_frame, nothing,
  keys, start_with, start, expire, expire_phase, char_in, enter_in, push_key, push_char, push_enter,
  push, char, enter, scan, frame, held, pass, release_with, released, reset, after_stale,
}
use taskologic.Barcode.Detector.Held.{IsValid, Holds}

-- The phases in which what came so far may still be typing.
abbrev pub IsTyping : Phase → Type 0
IsTyping version = ⊥
IsTyping (body_of total) = ⊥
IsTyping (in_frame dash) = ⊥
IsTyping _ = Unit {0}

abbrev pub keys_of : Text → List ScanKey
keys_of = map char

-- From the keys `before`, a key, and what came out: handed on and held, the same keys in order.
abbrev pub Conserved : List ScanKey → ScanKey → Text → Feed → Type 0
Conserved before key after (pass ks) = before ++ key ∷ [] ≡ ks ++ keys_of after
Conserved before key after held = before ++ key ∷ [] ≡ keys_of after
Conserved before key after _ = ⊥

-- The same of a key that was pushed.
abbrev pub Conserves : List ScanKey → ScanKey → ScanDetector × Feed → Type 0
Conserves before key r = Conserved before key r.0.held_chars r.1

-- `start` with nothing held: the key is held, or handed on.
start_with-Conserves :
    (p : Text) (d : ScanDetector) (c now : ℕ)
    → d.held_chars ≡ []
    → Conserves [] (char c) (start_with p d c now)
unfolding start_with
start_with-Conserves [] d c now e = ground arith
start_with-Conserves (x ∷ p) d c now e = ground arith

-- Behind keys that were held.
released-Conserved :
    (before : List ScanKey) (key : ScanKey) (after : Text) (fed : Feed)
    → Conserved [] key after fed
    → Conserved before key after (released before fed)
unfolding released
released-Conserved [] key after (pass ks) h = h
released-Conserved (k ∷ before) key after (pass ks) h =
    ap (λ s. k ∷ before ++ s) h ∙ sym (append_assoc (k ∷ before) ks (keys_of after))
released-Conserved [] key after held h = h
released-Conserved (k ∷ before) key after held h = ap (λ s. k ∷ before ++ s) h
released-Conserved before key after (scan r) h = absurd h
released-Conserved before key after (frame t) h = absurd h

release_with-Conserves :
    (d : ScanDetector) (c now : ℕ)
    → Conserves (keys_of d.held_chars) (char c) (release_with d c now)
unfolding release_with start
release_with-Conserves d c now =
    let r = start_with d.prefix (reset d) c now in
    released-Conserved (keys_of d.held_chars) (char c) r.0.held_chars r.1
      (start_with-Conserves d.prefix (reset d) c now (unfold reset in refl))

-- One more key that is held.
hold-Conserves : (hs : Text) (c : ℕ) → keys_of hs ++ char c ∷ [] ≡ keys_of (hs ++ c ∷ [])
hold-Conserves hs c = sym (map-append char hs (c ∷ []))

module _ (d : ScanDetector) (c now : ℕ) where
  char_in-Conserves :
      (ph : Phase)
      → IsTyping ph
      → (ph ≡ idle → d.held_chars ≡ [])
      → Conserves (keys_of d.held_chars) (char c) (char_in ph d c now)
  unfolding char_in
  char_in-Conserves idle t i =
      unfold start in
      (subst (λ hs. Conserves (keys_of hs) (char c) (start_with d.prefix d c now)) (sym (i refl))
        (start_with-Conserves d.prefix d c now (i refl)))
  char_in-Conserves (prefix_at n) t i = elim (Option-cases (get_elem? d.prefix n)) [
    | inl x ↦ rw (x, char_in) (release_with-Conserves d c now)
    | inr (p, x) ↦
        rw (x, char_in)
          (if-rule (p == c) (λ r. Conserves (keys_of d.held_chars) (char c) r)
            (hold-Conserves d.held_chars c) (release_with-Conserves d c now))
  ]
  char_in-Conserves version t i = absurd t
  char_in-Conserves (body_of total) t i = absurd t
  char_in-Conserves (in_frame dash) t i = absurd t
  char_in-Conserves _ t i =
      ground (arith, release_with-Conserves d c now, hold-Conserves d.held_chars c)

-- Enter hands on what is held.
enter_in-Conserves :
    (d : ScanDetector) (now : ℕ) (ph : Phase)
    → IsTyping ph
    → (ph ≡ idle → d.held_chars ≡ [])
    → Conserves (keys_of d.held_chars) enter (enter_in ph d now)
unfolding enter_in reset
enter_in-Conserves d now idle t i =
    ap (λ hs. keys_of hs ++ enter ∷ []) (i refl) ∙ ap (λ hs. enter ∷ keys_of hs) (sym (i refl))
enter_in-Conserves d now version t i = absurd t
enter_in-Conserves d now (body_of total) t i = absurd t
enter_in-Conserves d now (in_frame dash) t i = absurd t
enter_in-Conserves d now _ t i = sym (append-nil (keys_of d.held_chars ++ enter ∷ []))

push_key-Conserves :
    (key : ScanKey) (d : ScanDetector) (now : ℕ)
    → IsTyping d.phase
    → (d.phase ≡ idle → d.held_chars ≡ [])
    → d.swallow_enter ≡ false
    → Conserves (keys_of d.held_chars) key (push_key key d now)
unfolding push_key push_char push_enter
push_key-Conserves (char c) d now t i s =
    char_in-Conserves (record d { swallow_enter = false }) c now d.phase t i
push_key-Conserves enter d now t i s =
    subst
      (λ b.
        Conserves (keys_of d.held_chars) enter
          (if b then (record d { swallow_enter = false }, held) else enter_in d.phase d now))
      (sym s) (enter_in-Conserves d now d.phase t i)

-- Keys that a stale match held come first.
after_stale-Conserved :
    (before : List ScanKey) (key : ScanKey) (after : Text) (fed : Feed)
    → Conserved [] key after fed
    → Conserved before key after (after_stale (keys before) fed)
unfolding after_stale
after_stale-Conserved before key after (pass ks) h =
    ap (λ s. before ++ s) h ∙ sym (append_assoc before ks (keys_of after))
after_stale-Conserved before key after held h = ap (λ s. before ++ s) h
after_stale-Conserved before key after (scan r) h = absurd h
after_stale-Conserved before key after (frame t) h = absurd h

-- In a phase that may be typing, a stale match hands its keys back.
expire_phase-typing :
    (ph : Phase) (age : ℕ) (d : ScanDetector)
    → IsTyping ph
    → (expire_phase ph age d ≡ (d, nothing))
      ⊎ (expire_phase ph age d ≡ (reset d, keys (keys_of d.held_chars)))
unfolding expire_phase
expire_phase-typing idle age d t = inl refl
expire_phase-typing version age d t = absurd t
expire_phase-typing (body_of total) age d t = absurd t
expire_phase-typing (in_frame dash) age d t = absurd t
expire_phase-typing _ age d t =
    if-rule (leb age d.timeout_ms)
      (λ r. (r ≡ (d, nothing)) ⊎ (r ≡ (reset d, keys (keys_of d.held_chars)))) (inl refl) (inr refl)

expire-typing :
    (d : ScanDetector) (now : ℕ)
    → IsTyping d.phase
    → (expire d now ≡ (d, nothing)) ⊎ (expire d now ≡ (reset d, keys (keys_of d.held_chars)))
unfolding expire
expire-typing d now t = elim (Option-cases d.since) [
  | inl e ↦ inl (ground arith)
  | inr (at, e) ↦ ground (arith, expire_phase-typing d.phase (now - at) d t)
]

-- While a match may still be typing, and not just behind a scan, a key loses nothing: the keys that
-- were held and the new one are those handed on and those held now, in order, whether the match goes
-- on, breaks, or had gone stale; and no scan or frame is reported.
pub push-Conserves :
    (d : ScanDetector) (key : ScanKey) (now : ℕ)
    → IsValid d
    → IsTyping d.phase
    → d.swallow_enter ≡ false
    → Conserves (keys_of d.held_chars) key (push d key now)
unfolding push push_key reset
push-Conserves d key now v t s =
    let empty = λ (e : d.phase ≡ idle). (subst (λ ph. Holds ph d) e v.holds).0 in
    elim (expire-typing d now t) [
      | inl e ↦
          subst
            (λ (r : ScanDetector × Expired).
              Conserved (keys_of d.held_chars) key (push_key key r.0 now).0.held_chars
                (after_stale r.1 (push_key key r.0 now).1))
            (sym e) (unfold after_stale in (push_key-Conserves key d now t empty s))
      | inr e ↦
          subst
            (λ (r : ScanDetector × Expired).
              Conserved (keys_of d.held_chars) key (push_key key r.0 now).0.held_chars
                (after_stale r.1 (push_key key r.0 now).1))
            (sym e)
            (after_stale-Conserved (keys_of d.held_chars) key _ _ (
              push_key-Conserves key (reset d) now (unfold reset in tt) (λ _. unfold reset in refl)
                (unfold reset in s)))
    ]
