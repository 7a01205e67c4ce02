-- ===== src/Barcode/Payload.antt =====
-- `ScanPayload` of barcode.rs: the text in a barcode, written and read.
pub mod Laws
pub mod Sound
pub mod Tests
use taskologic.Prelude.{
  ℕ, ◌+◌, ◌<◌, ◌≡◌, Option, none, some, Bool, true, false, ◌&&◌, List, [], ◌∷◌, ◌++◌, map,
}
use taskologic.Prelude.Tests.{◌==◌, ltb, if◌then◌else◌}
use taskologic.Prelude.Lists.{length, take, drop, find, get_elem?}
use taskologic.Prelude.Result.{Result, ok, err, ensure, map_err, ◌>>=◌, ◌>>◌}
use taskologic.Prelude.Text.{Text, trim, to_ascii_uppercase}
use taskologic.Ids.{base36_value}
use taskologic.Ids.ShortId
use taskologic.Ids.ShortId.{ShortId, ShortIdError, IsShortId}
use taskologic.Barcode.{
  ScanAction, magic, magic_char, magic_len, v1_len, version_1, action_code, action_from_code,
  payload_len, IsCodable,
}
use taskologic.Barcode.Check.{check_char, verify_check}

pub data ScanParseError : Type 0 where
  no_magic : ScanParseError
  unknown_version : ℕ → ScanParseError
  truncated : ℕ → ℕ → ScanParseError  -- expected, got
  too_long : ℕ → ℕ → ScanParseError  -- expected, got
  bad_action : ℕ → ScanParseError
  bad_char : ℕ → ScanParseError
  bad_check : ScanParseError

-- A decoded barcode.
pub record ScanPayload : Type 0 where
  pub action : ScanAction
  pub short_id : ShortId

-- Version, action and short id, without magic or check character.
abbrev pub body : ScanPayload → Text
body p = version_1 ∷ action_code p.action ∷ ShortId.as_str p.short_id

-- The full payload string; nothing where the source panics because the body has no check character.
unfoldable pub encode : ScanPayload → Option Text
encode p = elim (check_char (body p)) [
  | none ↦ none
  | some check ↦ some (magic ++ body p ++ check ∷ [])
]

abbrev pub is_base36 : ℕ → Bool
is_base36 c = elim (base36_value c) [ none ↦ false | some v ↦ true ]

-- `chars.len() >= MAGIC_LEN && chars[..MAGIC_LEN].iter().all(|c| *c == MAGIC_CHAR)`
unfoldable pub has_magic : Text → Bool
has_magic (c ∷ d ∷ s) = c == magic_char && d == magic_char
has_magic _ = false

-- `ok_or`
abbrev pub ok_or {ℓ κ} : {A : Type ℓ} {E : Type κ} → Option A → E → Result A E
ok_or none e = err e
ok_or (some a) e = ok a

-- The first character outside base36 is refused.
abbrev pub check_chars : Text → Result (Unit {0}) ScanParseError
check_chars [] = ok tt
check_chars (c ∷ s) = let rest = check_chars s in if is_base36 c then rest else err (bad_char c)

abbrev pub id_error : ℕ → ℕ → ShortIdError → ScanParseError
id_error expected got (ShortId.ShortIdError.bad_char c) = bad_char c
id_error expected got (ShortId.ShortIdError.wrong_length n) = truncated expected got

-- What `parse` does behind the magic: `chars` is the whole text, `version` its third character.
unfoldable pub parse_version : Text → ℕ → Result ScanPayload ScanParseError
unfolding payload_len
parse_version chars version = do
  expected ← ok_or (payload_len version) (unknown_version version)
  let got = length chars
  if ltb got expected then err (truncated expected got) else ok tt
  if ltb expected got then err (too_long expected got) else ok tt
  let with_check = drop magic_len chars
  check_chars with_check
  ensure (verify_check with_check) bad_check
  code ← ok_or (get_elem? chars (magic_len + 1)) no_magic
  action ← ok_or (action_from_code code) (bad_action code)
  let id = take ShortId.len (drop (magic_len + 2) chars)
  short_id ← map_err (id_error expected got) (ShortId.parse id)
  ok (record { action = action; short_id = short_id })

-- `parse` on the characters in upper case.
unfoldable pub parse_chars : Text → Result ScanPayload ScanParseError
unfolding parse_version has_magic
parse_chars chars = do
  ensure (has_magic chars) no_magic
  version ← ok_or (get_elem? chars magic_len) (truncated v1_len (length chars))
  parse_version chars version

-- Parse a complete payload.
unfoldable pub parse : Text → Result ScanPayload ScanParseError
unfolding parse_chars
parse raw = parse_chars (map to_ascii_uppercase (trim raw))

-- What a barcode can carry: a short id that the code built and an action with a code of its own.
pub record IsPayload (p : ScanPayload) : Type 0 where
  pub id : IsShortId p.short_id
  pub codable : IsCodable p.action
