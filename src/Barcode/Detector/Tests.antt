-- ===== src/Barcode/Detector/Tests.antt =====
-- A scan key by key, and the laws at it.
use taskologic.Prelude.{ℕ, ◌≡◌, refl, true, ◌+◌, [], ◌∷◌, ◌++◌, arith}
use taskologic.Prelude.Result.{ok}
use taskologic.Prelude.Text.{Text, text}
use taskologic.Ids.{base36_value, base36_char}
use taskologic.Ids.ShortId
use taskologic.Ids.ShortId.{digit}
use taskologic.Ids.ShortId.Parse.{parse-IsShortId}
use taskologic.Barcode.{start_pause, action_code}
use taskologic.Barcode.Check.{check_char, checksum, checksum_step, base36_values}
use taskologic.Barcode.Payload.{ScanPayload, encode, IsPayload}
use taskologic.Barcode.Detector.{
  ScanDetector, char, new, push, push_all, expire, expire_phase, push_key, push_char, char_in,
  start, start_with, release_with, released, reset, after_stale, pass, held, scan,
}
use taskologic.Barcode.Detector.Held.{IsValid}
use taskologic.Barcode.Detector.Valid.{IsIdle, push_all-IsValid}
use taskologic.Barcode.Detector.Prefix.{push_all-encode}
use taskologic.Barcode.Detector.Typing.{Conserves, push-Conserves}
use taskologic.Barcode.Detector.Detect.{Typed, typed, quiet}

abbrev scanner : ScanDetector
scanner = record new { prefix = text "ab"; enter_terminates = true }

abbrev k4 : ScanPayload
k4 = record { action = start_pause; short_id = record { bytes = text "K4M9Q2" } }

k4-IsPayload : IsPayload k4
unfolding ShortId.parse base36_value digit
k4-IsPayload = record { id = parse-IsShortId (text "K4M9Q2") _ refl; codable = tt }

-- Ten milliseconds from key to key.
abbrev every_ten : ℕ → Text → Typed
every_ten now [] = []
every_ten now (c ∷ s) = (c, now) ∷ every_ten (now + 10) s

abbrev keys_of_prefix : Typed
keys_of_prefix = every_ten 100 (text "ab")

abbrev keys_of_code : Typed
keys_of_code = every_ten 120 (text "..1SK4M9Q2J")

push_all-encode_example :
    ((push_all scanner (typed (keys_of_prefix ++ keys_of_code))).1
      ≡ quiet (keys_of_prefix ++ keys_of_code) (scan (ok k4)))
    × IsIdle (push_all scanner (typed (keys_of_prefix ++ keys_of_code))).0
unfolding encode check_char base36_values base36_value base36_char checksum checksum_step
    action_code
push_all-encode_example =
    push_all-encode scanner k4 keys_of_prefix keys_of_code (refl, refl, refl, refl) k4-IsPayload
      refl refl (omega arith)

push_all-IsValid_example : IsValid (push_all scanner (typed keys_of_prefix)).0
push_all-IsValid_example =
    push_all-IsValid scanner (typed keys_of_prefix) (record { holds = (refl, refl); runs = refl })

-- A single dot, and a letter after it: both come back as typing.
dot_typed :
    (push_all new ((char b'.', 5) ∷ (char b'x', 9) ∷ [])).1
    ≡ held ∷ pass (char b'.' ∷ char b'x' ∷ []) ∷ []
unfolding push_all push expire expire_phase push_key push_char char_in start start_with release_with
    released reset after_stale
dot_typed = refl

-- The letter breaks the match that the dot began.
push-Conserves_example :
    Conserves (char b'.' ∷ []) (char b'x') (push (push new (char b'.') 5).0 (char b'x') 9)
unfolding push expire expire_phase push_key push_char char_in start start_with
push-Conserves_example =
    push-Conserves (push new (char b'.') 5).0 (char b'x') 9
      (record { holds = (refl, refl); runs = λ e. cc }) tt refl
