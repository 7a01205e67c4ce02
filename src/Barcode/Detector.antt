-- ===== src/Barcode/Detector.antt =====
-- `ScanDetector` of barcode.rs: a state machine that watches a stream of keystrokes for payloads and
-- control frames. A method that takes `&mut self` returns the new detector beside its result.
-- Milliseconds are u64; `saturating_sub` is the subtraction of natural numbers.
pub mod Held
pub mod Valid
pub mod Steps
pub mod Detect
pub mod Prefix
pub mod Typing
pub mod Tests
use taskologic.Prelude.{
  ℕ, ◌+◌, ◌-◌, ◌≡◌, Option, none, some, Bool, true, false, ◌&&◌, ◌||◌, List, [], ◌∷◌, ◌++◌, map,
}
use taskologic.Prelude.Tests.{◌==◌, leb, if◌then◌else◌}
use taskologic.Prelude.Lists.{length, get_elem?}
use taskologic.Prelude.Result.{Result, ok, err}
use taskologic.Prelude.Text.{Text, to_ascii_uppercase}
use taskologic.Barcode.{magic, magic_char, frame_char, magic_len, version_1, payload_len}
use taskologic.Barcode.Payload
use taskologic.Barcode.Payload.{ScanPayload, ScanParseError, unknown_version}

-- One keystroke as seen by the detector.
pub data ScanKey : Type 0 where
  char : ℕ → ScanKey
  enter : ScanKey

-- What the client should do with a keystroke after the detector saw it.
pub data Feed : Type 0 where
  pass : List ScanKey → Feed
  held : Feed
  scan : Result ScanPayload ScanParseError → Feed
  frame : Text → Feed

-- What `expire` found to be stale.
pub data Expired : Type 0 where
  nothing : Expired
  keys : List ScanKey → Expired
  stale_scan stale_frame : Expired

pub data Phase : Type 0 where
  idle : Phase
  prefix_at : ℕ → Phase
  prefix_done half_magic version : Phase
  body_of : ℕ → Phase
  half_frame frame_open : Phase
  in_frame : Bool → Phase

pub record ScanDetector : Type 0 where
  pub prefix : Text
  pub enter_terminates : Bool
  pub timeout_ms : ℕ
  pub frame_timeout_ms : ℕ
  pub phase : Phase
  pub held_chars : Text  -- the field `held`
  pub body : Text
  pub since : Option ℕ
  pub swallow_enter : Bool
  pub last_scan_ms : Option ℕ

abbrev pub default_timeout_ms : ℕ
default_timeout_ms = 2000

abbrev pub default_frame_timeout_ms : ℕ
default_frame_timeout_ms = 20_000

abbrev pub new : ScanDetector
new = record {
  prefix = [];
  enter_terminates = false;
  timeout_ms = default_timeout_ms;
  frame_timeout_ms = default_frame_timeout_ms;
  phase = idle;
  held_chars = [];
  body = [];
  since = none;
  swallow_enter = false;
  last_scan_ms = none;
}

unfoldable pub reset : ScanDetector → ScanDetector
reset d = record d { phase = idle; held_chars = []; body = []; since = none }

-- The `match self.phase` of `expire`, for a buffer of this age.
unfoldable pub expire_phase : Phase → ℕ → ScanDetector → ScanDetector × Expired
expire_phase idle age d = (d, nothing)
expire_phase (in_frame dash) age d =
    if d.frame_timeout_ms == 0 || leb age d.frame_timeout_ms
    then (d, nothing)
    else (reset d, stale_frame)
expire_phase (body_of total) age d =
    if leb age d.timeout_ms then (d, nothing) else (reset d, stale_scan)
expire_phase version age d = if leb age d.timeout_ms then (d, nothing) else (reset d, stale_scan)
expire_phase _ age d =
    if leb age d.timeout_ms then (d, nothing) else (reset d, keys (map char d.held_chars))

-- Drop a buffer that has gone stale.
unfoldable pub expire : ScanDetector → ℕ → ScanDetector × Expired
expire d now = elim d.since [ none ↦ (d, nothing) | some t ↦ expire_phase d.phase (now - t) d ]

abbrev hold : ScanDetector → ℕ → Phase → ScanDetector × Feed
hold d c next = (record d { held_chars = d.held_chars ++ c ∷ []; phase = next }, held)

abbrev begin : ScanDetector → ℕ → Phase → ℕ → ScanDetector × Feed
begin d c next now =
    (record d { held_chars = d.held_chars ++ c ∷ []; phase = next; since = some now }, held)

-- `start`, with the prefix apart
unfoldable pub start_with : Text → ScanDetector → ℕ → ℕ → ScanDetector × Feed
start_with [] d c now =
    if c == magic_char
    then begin d c half_magic now
    else if c == frame_char
    then begin d c half_frame now
    else (d, pass (char c ∷ []))
start_with (p ∷ rest) d c now =
    if p == c
    then begin d c (if length rest == 0 then prefix_done else prefix_at 1) now
    else (d, pass (char c ∷ []))

unfoldable pub start : ScanDetector → ℕ → ℕ → ScanDetector × Feed
unfolding start_with
start d c now = start_with d.prefix d c now

-- What `release_with` makes of the feed of `start`, behind the keys that were held.
unfoldable pub released : List ScanKey → Feed → Feed
released [] held = held
released (k ∷ ks) held = pass (k ∷ ks)
released out (pass more) = pass (out ++ more)
released out (scan r) = scan r
released out (frame t) = frame t

-- A character broke a partial match.
unfoldable pub release_with : ScanDetector → ℕ → ℕ → ScanDetector × Feed
unfolding released reset start
release_with d c now =
    let (d', fed) = start (reset d) c now in (d', released (map char d.held_chars) fed)

abbrev pub elapsed : Option ℕ → ℕ → Option ℕ
elapsed none now = none
elapsed (some t) now = some (now - t)

unfoldable pub finish : ScanDetector → ℕ → ScanDetector × Feed
unfolding reset
finish d now = (
  record (reset d) { swallow_enter = d.enter_terminates; last_scan_ms = elapsed d.since now },
  scan (Payload.parse (magic ++ d.body)),
)

unfoldable pub finish_frame : ScanDetector → ℕ → ScanDetector × Feed
unfolding reset
finish_frame d now = (
  record (reset d) { swallow_enter = d.enter_terminates; last_scan_ms = elapsed d.since now },
  frame d.body,
)

-- `crate::control::VERSION_1`
abbrev pub control_version_1 : ℕ
control_version_1 = b'1'

-- The `match self.phase` of `push_char`.
unfoldable pub char_in : Phase → ScanDetector → ℕ → ℕ → ScanDetector × Feed
char_in idle d c now = start d c now
char_in (prefix_at n) d c now = elim (get_elem? d.prefix n) [
  | none ↦ release_with d c now
  | some p ↦
      if p == c
      then hold d c (if n + 1 == length d.prefix then prefix_done else prefix_at (n + 1))
      else release_with d c now
]
char_in prefix_done d c now =
    if c == magic_char
    then hold d c half_magic
    else if c == frame_char
    then hold d c half_frame
    else release_with d c now
char_in half_magic d c now = if c == magic_char then hold d c version else release_with d c now
char_in version d c now = elim (payload_len c) [
  | none ↦ (reset d, scan (err (unknown_version c)))
  | some total ↦ (record d { body = d.body ++ c ∷ []; phase = body_of total }, held)
]
char_in (body_of total) d c now =
    let d' = record d { body = d.body ++ to_ascii_uppercase c ∷ [] } in
    if leb total (magic_len + length d'.body) then finish d' now else (d', held)
char_in half_frame d c now = if c == frame_char then hold d c frame_open else release_with d c now
char_in frame_open d c now =
    if c == control_version_1
    then (record d { held_chars = d.held_chars ++ c ∷ []; body = []; phase = in_frame false }, held)
    else release_with d c now
char_in (in_frame dash) d c now =
    let d' = record d { since = some now } in
    if c == frame_char
    then if dash then finish_frame d' now else (record d' { phase = in_frame true }, held)
    else (
      record d' {
        body = (if dash then d.body ++ frame_char ∷ [] else d.body) ++ c ∷ [];
        phase = in_frame false;
      },
      held,
    )

unfoldable pub push_char : ScanDetector → ℕ → ℕ → ScanDetector × Feed
push_char d c now = char_in d.phase (record d { swallow_enter = false }) c now

-- The `match self.phase` of `push_enter`.
unfoldable pub enter_in : Phase → ScanDetector → ℕ → ScanDetector × Feed
enter_in idle d now = (d, pass (enter ∷ []))
enter_in (body_of total) d now = finish d now
enter_in (in_frame dash) d now = (record d { since = some now }, held)
enter_in _ d now = (reset d, pass (map char d.held_chars ++ enter ∷ []))

unfoldable pub push_enter : ScanDetector → ℕ → ScanDetector × Feed
push_enter d now =
    if d.swallow_enter then (record d { swallow_enter = false }, held) else enter_in d.phase d now

-- Keys a stale partial match held go first, as typed.
unfoldable pub after_stale : Expired → Feed → Feed
after_stale (keys ks) (pass more) = pass (ks ++ more)
after_stale (keys ks) held = pass ks
after_stale _ fed = fed

unfoldable pub push_key : ScanKey → ScanDetector → ℕ → ScanDetector × Feed
push_key (char c) d now = push_char d c now
push_key enter d now = push_enter d now

unfoldable pub push : ScanDetector → ScanKey → ℕ → ScanDetector × Feed
unfolding after_stale
push d key now =
    let (d1, stale) = expire d now in
    let (d2, fed) = push_key key d1 now in (d2, after_stale stale fed)

-- A stream of timed keys, and the feed of each.
unfoldable pub push_all : ScanDetector → List (ScanKey × ℕ) → ScanDetector × List Feed
push_all d [] = (d, [])
push_all d ((key, now) ∷ rest) =
    let (d', fed) = push d key now in let (d'', feeds) = push_all d' rest in (d'', fed ∷ feeds)

-- How a detector is set up, and what is asked of it.
abbrev pub with_prefix : ScanDetector → Text → ScanDetector
with_prefix d prefix = record d { prefix = prefix }

abbrev pub with_enter_terminates : ScanDetector → Bool → ScanDetector
with_enter_terminates d yes' = record d { enter_terminates = yes' }

abbrev pub with_timeout_ms : ScanDetector → ℕ → ScanDetector
with_timeout_ms d ms = record d { timeout_ms = ms }

abbrev pub with_frame_timeout_ms : ScanDetector → ℕ → ScanDetector
with_frame_timeout_ms d ms = record d { frame_timeout_ms = ms }

abbrev pub is_frame_open : ScanDetector → Bool
is_frame_open d = elim d.phase [ in_frame dash ↦ true | _ ↦ false ]

abbrev pub is_idle : ScanDetector → Bool
is_idle d = elim d.phase [ idle ↦ true | _ ↦ false ]

unfoldable pub cancel : ScanDetector → ScanDetector
unfolding reset
cancel d = reset d
