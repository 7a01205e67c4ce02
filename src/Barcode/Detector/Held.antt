-- ===== src/Barcode/Detector/Held.antt =====
-- What a detector holds and has collected in each phase of a match.
use taskologic.Prelude.{ℕ, ◌+◌, ◌<◌, ◌≡◌, ◌≢◌, Option, none, [], ◌∷◌, ◌++◌, arith}
use taskologic.Prelude.Lists.{All, length, take}
use taskologic.Prelude.Text.{Text, text, to_ascii_uppercase}
use taskologic.Barcode.{v1_len}
use taskologic.Barcode.Detector.{
  ScanDetector, Phase, idle, prefix_at, prefix_done, half_magic, version, body_of, half_frame,
  frame_open, in_frame,
}

-- Every dash of a text is followed by another character.
abbrev pub IsDashed : Text → Type 0
IsDashed [] = Unit
IsDashed (c ∷ []) = c ≢ b'-'
IsDashed (c ∷ d ∷ s) = (c ≡ b'-' → d ≢ b'-') × IsDashed (d ∷ s)

pub IsDashed-append : (s t : Text) → IsDashed s → IsDashed t → IsDashed (s ++ t)
IsDashed-append [] t h k = k
IsDashed-append (c ∷ []) [] h k = h
IsDashed-append (c ∷ []) (d ∷ t) h k = (λ e. absurd (h e), k)
IsDashed-append (c ∷ d ∷ s) t (h, hs) k = (h, IsDashed-append (d ∷ s) t hs k)

-- The start of a payload's body: the version, and upper-case characters behind it.
abbrev pub IsPayloadStart : Text → Type 0
IsPayloadStart [] = ⊥
IsPayloadStart (c ∷ s) = (c ≡ b'1') × All (λ d. to_ascii_uppercase d ≡ d) s

upper_upper : (c : ℕ) → to_ascii_uppercase (to_ascii_uppercase c) ≡ to_ascii_uppercase c
unfolding to_ascii_uppercase
upper_upper c = ground arith

pub IsPayloadStart-append :
    (s : Text) (c : ℕ) → IsPayloadStart s → IsPayloadStart (s ++ to_ascii_uppercase c ∷ [])
IsPayloadStart-append [] c h = absurd h
IsPayloadStart-append (v ∷ s) c (h, hs) = (h, All-snoc s hs)
  where
    All-snoc :
        (s : Text)
        → All (λ d. to_ascii_uppercase d ≡ d) s
        → All (λ d. to_ascii_uppercase d ≡ d) (s ++ to_ascii_uppercase c ∷ [])
    All-snoc [] h = (upper_upper c, tt)
    All-snoc (d ∷ s) (h, hs) = (h, All-snoc s hs)

-- What is held and collected in a phase.
abbrev pub Holds : Phase → ScanDetector → Type 0
Holds idle d = (d.held_chars ≡ []) × (d.body ≡ [])
Holds (prefix_at n) d =
    (d.held_chars ≡ take n d.prefix) × (0 < n) × (n < length d.prefix) × (d.body ≡ [])
Holds prefix_done d = (d.held_chars ≡ d.prefix) × (0 < length d.prefix) × (d.body ≡ [])
Holds half_magic d = (d.held_chars ≡ d.prefix ++ text ".") × (d.body ≡ [])
Holds version d = (d.held_chars ≡ d.prefix ++ text "..") × (d.body ≡ [])
Holds (body_of total) d =
    (d.held_chars ≡ d.prefix ++ text "..")
    × (total ≡ v1_len)
    × (length d.body + 2 < v1_len)
    × IsPayloadStart d.body
Holds half_frame d = (d.held_chars ≡ d.prefix ++ text "-") × (d.body ≡ [])
Holds frame_open d = (d.held_chars ≡ d.prefix ++ text "--") × (d.body ≡ [])
Holds (in_frame dash) d = (d.held_chars ≡ d.prefix ++ text "--1") × IsDashed d.body

-- A detector is idle exactly when no time is running.
abbrev pub Runs : Phase → Option ℕ → Type 0
Runs idle since = since ≡ none
Runs _ since = since ≢ none

pub record IsValid (d : ScanDetector) : Type 0 where
  pub holds : Holds d.phase d
  pub runs : Runs d.phase d.since
