-- ===== src/Barcode/Detector/Valid.antt =====
-- What holds of a detector between two keys: in each phase, what it holds and what it has collected.
use mathlib.Core.List.{append_assoc}
use taskologic.Prelude.{
  ℕ, suc, ◌+◌, ◌-◌, ◌≡◌, ◌≢◌, refl, none, some, Bool, false, List, [], ◌∷◌, ◌++◌, ◌⊎◌, sym, ap, ◌∙◌,
  subst, arith, inl, inr,
}
use taskologic.Prelude.Tests.{◌==◌, Option-cases, if-rule, if-split, Bool-cases, leb}
use taskologic.Prelude.Lists.{length, get_elem?, take-snoc, take-length, get_elem?-lt}
use taskologic.Prelude.Text.{Text, text, to_ascii_uppercase}
use taskologic.Barcode.{v1_len, magic_len, frame_char, payload_len}
use taskologic.Barcode.Detector.Held.{
  IsDashed, IsDashed-append, IsPayloadStart, IsPayloadStart-append, Holds, Runs, IsValid,
}
use taskologic.Barcode.Detector.{
  ScanKey, ScanDetector, Phase, Feed, idle, prefix_at, prefix_done, half_magic, version, body_of,
  half_frame, frame_open, in_frame, reset, expire_phase, expire, start_with, start, release_with,
  finish, finish_frame, char_in, push_char, enter_in, push_enter, push_key, push, push_all, char,
  enter,
}

pub reset-IsValid : (d : ScanDetector) → IsValid (reset d)
unfolding reset
reset-IsValid d = record { holds = (refl, refl); runs = refl }

abbrev pub IsIdle : ScanDetector → Type 0
IsIdle d = (d.phase ≡ idle) × (d.held_chars ≡ []) × (d.body ≡ []) × (d.since ≡ none)

IsIdle-IsValid : (d : ScanDetector) → IsIdle d → IsValid d
IsIdle-IsValid d (p, h, b, s) = record { holds = rw p (h, b); runs = rw p s }

-- `start` is called with nothing held, and begins at most one match.
start_with-IsValid :
    (p : Text) (d : ScanDetector) (c now : ℕ)
    → d.prefix ≡ p
    → IsIdle d
    → IsValid (start_with p d c now).0
unfolding start_with
start_with-IsValid [] d c now e i = ground (arith, IsIdle-IsValid d)
start_with-IsValid (x ∷ []) d c now e i = elim (Bool-cases (x == c)) [
  | inl same ↦ rw same (record { holds = ground arith; runs = λ n. cc })
  | inr other ↦ rw other (IsIdle-IsValid d i)
]
start_with-IsValid (x ∷ y ∷ s) d c now e i = ground (arith, IsIdle-IsValid d)

reset-IsIdle : (d : ScanDetector) → IsIdle (reset d)
unfolding reset
reset-IsIdle d = (refl, refl, refl, refl)

start-IsValid : (d : ScanDetector) (c now : ℕ) → IsIdle d → IsValid (start d c now).0
unfolding start
start-IsValid d c now i = start_with-IsValid d.prefix d c now refl i

release_with-IsValid : (d : ScanDetector) (c now : ℕ) → IsValid (release_with d c now).0
unfolding release_with
release_with-IsValid d c now = start-IsValid (reset d) c now (reset-IsIdle d)

finish-IsValid : (d : ScanDetector) (now : ℕ) → IsValid (finish d now).0
unfolding finish
finish-IsValid d now = record { holds = (refl, refl); runs = refl }

finish_frame-IsValid : (d : ScanDetector) (now : ℕ) → IsValid (finish_frame d now).0
unfolding finish_frame
finish_frame-IsValid d now = record { holds = (refl, refl); runs = refl }

-- The next character of the prefix.
next_prefix :
    (d : ScanDetector) (n c now p : ℕ)
    → get_elem? d.prefix n ≡ some p
    → Holds (prefix_at n) d
    → Runs (prefix_at n) d.since
    → IsValid (char_in (prefix_at n) d c now).0
unfolding char_in
next_prefix d n c now p e h r =
    let lt = get_elem?-lt d.prefix n p e in
    rw (e, char_in)
      (ground (
        arith,
        release_with-IsValid d c now,
        take-snoc n d.prefix p e,
        take-length (suc n) d.prefix,
      ))

payload_len_cases : (c : ℕ) → ((c ≡ b'1') × (payload_len c ≡ some v1_len)) ⊎ (payload_len c ≡ none)
unfolding payload_len
payload_len_cases c = ground arith

-- A character, in every phase.
module _ (d : ScanDetector) (c now : ℕ) where
  char_in-IsValid :
      (ph : Phase) → d.phase ≡ ph → Holds ph d → Runs ph d.since → IsValid (char_in ph d c now).0
  unfolding char_in
  char_in-IsValid idle e (h, b) r = start-IsValid d c now (e, h, b, r)
  char_in-IsValid (prefix_at n) e h r = elim (Option-cases (get_elem? d.prefix n)) [
    | inl x ↦ rw (x, char_in) (release_with-IsValid d c now)
    | inr (p, x) ↦ next_prefix d n c now p x h r
  ]
  char_in-IsValid prefix_done e h r = ground (arith, release_with-IsValid d c now)
  char_in-IsValid half_magic e h r =
      ground (arith, release_with-IsValid d c now, append_assoc d.prefix (text ".") (c ∷ []))
  char_in-IsValid version e (h, b) r = elim (payload_len_cases c) [
    | inl (v, p) ↦
        let one : d.body ++ c ∷ [] ≡ b'1' ∷ [] = cc in
        rw (p, char_in)
          (record {
            holds = (h, refl, ground arith, subst IsPayloadStart (sym one) (refl, tt));
            runs = r;
          })
    | inr p ↦ rw (p, char_in) (reset-IsValid d)
  ]
  char_in-IsValid (body_of total) e (h, t, n, p) r =
      let next = record d { body = d.body ++ to_ascii_uppercase c ∷ [] } in
      if-split (leb total (magic_len + length next.body)) (λ (x : ScanDetector × Feed). IsValid x.0)
        (λ y. finish-IsValid next now)
        (λ y. record {
          holds =
              subst (λ ph. Holds ph next) (sym e)
                (h, t, ground arith, IsPayloadStart-append d.body c p);
          runs = subst (λ ph. Runs ph d.since) (sym e) r;
        })
  char_in-IsValid half_frame e h r =
      ground (arith, release_with-IsValid d c now, append_assoc d.prefix (text "-") (c ∷ []))
  char_in-IsValid frame_open e (h, b) r =
      if-split (c == b'1') (λ (x : ScanDetector × Feed). IsValid x.0)
        (λ y. record {
          holds = (
            ap (λ s. s ++ c ∷ []) h ∙ ground (arith, append_assoc d.prefix (text "--") (c ∷ [])),
            tt,
          );
          runs = r;
        })
        (λ n. release_with-IsValid d c now)
  char_in-IsValid (in_frame dash) e (h, p) r =
      if-split (c == b'-') (λ (x : ScanDetector × Feed). IsValid x.0)
        (λ y.
          if-split dash (λ (x : ScanDetector × Feed). IsValid x.0)
            (λ a. finish_frame-IsValid (record d { since = some now }) now)
            (λ a. record { holds = (h, p); runs = λ z. cc }))
        (λ n.
          let other : c ≢ b'-' = λ z. ground arith in
          record {
            holds = (
              h,
              if-split dash (λ s. IsDashed (s ++ c ∷ []))
                  (λ a.
                    subst IsDashed (sym (append_assoc d.body (frame_char ∷ []) (c ∷ [])))
                      (IsDashed-append d.body (b'-' ∷ c ∷ []) p (λ z. other, other)))
                  (λ a. IsDashed-append d.body (c ∷ []) p other),
            );
            runs = λ z. cc;
          })

-- The flag for the next Enter is no part of the match.
Holds-swallow :
    (ph : Phase) (d : ScanDetector) (b : Bool)
    → Holds ph d
    → Holds ph (record d { swallow_enter = b })
Holds-swallow idle d b h = h
Holds-swallow _ d b h = h

swallow-IsValid :
    (d : ScanDetector) (b : Bool) → IsValid d → IsValid (record d { swallow_enter = b })
swallow-IsValid d b v = record { holds = Holds-swallow d.phase d b v.holds; runs = v.runs }

push_char-IsValid : (d : ScanDetector) (c now : ℕ) → IsValid d → IsValid (push_char d c now).0
unfolding push_char
push_char-IsValid d c now v =
    let w = swallow-IsValid d false v in
    char_in-IsValid (record d { swallow_enter = false }) c now d.phase refl w.holds w.runs

module _ (d : ScanDetector) (now : ℕ) where
  -- Enter, in every phase.
  enter_in-IsValid :
      (ph : Phase) → d.phase ≡ ph → Holds ph d → Runs ph d.since → IsValid (enter_in ph d now).0
  unfolding enter_in
  enter_in-IsValid idle e (h, b) r = IsIdle-IsValid d (e, h, b, r)
  enter_in-IsValid (body_of total) e h r = finish-IsValid d now
  enter_in-IsValid (in_frame dash) e h r = ground arith
  enter_in-IsValid _ e h r = reset-IsValid d

  -- A stale buffer, in every phase.
  expire_phase-IsValid : (ph : Phase) (age : ℕ) → IsValid d → IsValid (expire_phase ph age d).0
  unfolding expire_phase
  expire_phase-IsValid idle age v = v
  expire_phase-IsValid _ age v = ground (arith, reset-IsValid d)

push_enter-IsValid : (d : ScanDetector) (now : ℕ) → IsValid d → IsValid (push_enter d now).0
unfolding push_enter
push_enter-IsValid d now v =
    if-rule d.swallow_enter (λ (r : ScanDetector × Feed). IsValid r.0) (swallow-IsValid d false v)
      (enter_in-IsValid d now d.phase refl v.holds v.runs)

pub push_key-IsValid :
    (key : ScanKey) (d : ScanDetector) (now : ℕ) → IsValid d → IsValid (push_key key d now).0
unfolding push_key
push_key-IsValid (char c) d now v = push_char-IsValid d c now v
push_key-IsValid enter d now v = push_enter-IsValid d now v

-- Dropping a stale buffer keeps the detector valid.
pub expire-IsValid : (d : ScanDetector) (now : ℕ) → IsValid d → IsValid (expire d now).0
unfolding expire
expire-IsValid d now v = elim (Option-cases d.since) [
  | inl e ↦ rw (e, expire) v
  | inr (t, e) ↦ rw (e, expire) (expire_phase-IsValid d now d.phase (now - t) v)
]

-- Every key, at every time, keeps the detector valid.
pub push-IsValid :
    (d : ScanDetector) (key : ScanKey) (now : ℕ) → IsValid d → IsValid (push d key now).0
unfolding push
push-IsValid d key now v = push_key-IsValid key (expire d now).0 now (expire-IsValid d now v)

-- After any stream of keys a detector that began valid is valid. Idle, it holds and has collected nothing
-- and no time is running; in every other phase it is timed. Within the prefix it holds exactly the
-- prefix so far; behind it, in the magic and in the opening of a frame, it holds the prefix and the
-- characters since; and it has collected nothing. In a body it holds the prefix and the magic, and has
-- collected the version character, in front of upper-case characters only, and less than a payload's
-- length. In a frame it holds the prefix and the opening, and in what it has collected every dash is
-- followed by another character.
pub push_all-IsValid :
    (d : ScanDetector) (ks : List (ScanKey × ℕ)) → IsValid d → IsValid (push_all d ks).0
unfolding push_all
push_all-IsValid d [] v = v
push_all-IsValid d ((key, now) ∷ rest) v =
    push_all-IsValid (push d key now).0 rest (push-IsValid d key now v)
