-- ===== src/Barcode.antt =====
-- crates/taskologic-core/src/barcode.rs: what a barcode asks for, and its format.
pub mod Check
pub mod Payload
pub mod Detector
use taskologic.Prelude.{
  ℕ, ◌+◌, ◌-◌, ◌≤◌, Option, none, some, Bool, true, false, not, ◌&&◌, min, max,
}
use taskologic.Prelude.Tests.{leb, ◌==◌, if◌then◌else◌}
use taskologic.Prelude.Text.{Text, text, to_ascii_uppercase}
use taskologic.Ids.ShortId

-- The two characters in front of every system code.
abbrev pub magic : Text
magic = text ".."

abbrev pub magic_char : ℕ
magic_char = b'.'

-- The character a control frame is made of, twice to open, twice to close.
abbrev pub frame_char : ℕ
frame_char = b'-'

-- What a scanned barcode asks for.
pub data ScanAction : Type 0 where
  start_pause finish yes_answer no_answer : ScanAction
  choice : ℕ → ScanAction
  finish_children : ScanAction

-- The most answers a choice question can offer, one digit each.
abbrev pub max_choices : ℕ
max_choices = 8

-- `clamp(1, MAX_CHOICES)`
abbrev pub clamp_choice : ℕ → ℕ
clamp_choice n = min (max n 1) max_choices

unfoldable pub action_code : ScanAction → ℕ
action_code start_pause = b'S'
action_code finish = b'F'
action_code yes_answer = b'Y'
action_code no_answer = b'N'
action_code (choice n) = b'0' + clamp_choice n
action_code finish_children = b'C'

unfoldable pub action_from_code : ℕ → Option ScanAction
unfolding to_ascii_uppercase
action_from_code c =
    let u = to_ascii_uppercase c in
    if u == b'S'
    then some start_pause
    else if u == b'F'
    then some finish
    else if u == b'Y'
    then some yes_answer
    else if u == b'N'
    then some no_answer
    else if leb b'1' u && leb u b'8'
    then some (choice (c - b'0'))
    else if u == b'C'
    then some finish_children
    else none

-- Whether this code belongs with the finishing codes on a slip: every one but the start code.
unfoldable pub finishes : ScanAction → Bool
finishes start_pause = false
finishes _ = true

-- The only payload version so far.
abbrev pub version_1 : ℕ
version_1 = b'1'

abbrev pub magic_len : ℕ
magic_len = 2

-- Total length of a payload: magic 2 + version 1 + action 1 + short id 6 + check 1.
abbrev pub v1_len : ℕ
v1_len = magic_len + 1 + 1 + ShortId.len + 1

-- Total payload length for a version character, or nothing if unknown.
unfoldable pub payload_len : ℕ → Option ℕ
payload_len version = if version == version_1 then some v1_len else none

-- A choice that a code can name; every other action has a code of its own.
abbrev pub IsCodable : ScanAction → Type 0
IsCodable (choice n) = (1 ≤ n) × (n ≤ max_choices)
IsCodable _ = Unit
