-- ===== src/Barcode/Payload/Tests.antt =====
-- A payload, its text, and the laws at it.
use taskologic.Prelude.{◌≡◌, ◌↔◌, refl, some, map, arith}
use taskologic.Prelude.Result.{ok, err}
use taskologic.Prelude.Text.{text, trim, to_ascii_uppercase, is_whitespace}
use taskologic.Ids.{base36_value}
use taskologic.Ids.ShortId
use taskologic.Ids.ShortId.{ShortId, digit}
use taskologic.Ids.ShortId.Parse.{parse-IsShortId}
use taskologic.Barcode.{choice}
use taskologic.Barcode.Check.{base36_values, verify_check, checksum, checksum_step}
use taskologic.Barcode.Payload.{
  ScanPayload, encode, parse, IsPayload, bad_check, no_magic, truncated,
}
use taskologic.Barcode.Payload.Sound.{parse_iff_encode}

abbrev k4 : ScanPayload
k4 = record { action = choice 3; short_id = record { bytes = text "K4M9Q2" } }

k4-IsPayload : IsPayload k4
unfolding ShortId.parse base36_value digit
k4-IsPayload = record { id = parse-IsShortId (text "k4m9q2") _ refl; codable = omega arith }

errors :
    (parse (text "4006381333931") ≡ err no_magic)
    × (parse (text "..1SK4") ≡ err (truncated 11 6))
    × (parse (text " ..1sk4m9q2k ") ≡ err bad_check)
unfolding parse trim is_whitespace to_ascii_uppercase verify_check base36_values base36_value
    checksum checksum_step
errors = (refl, refl, refl)

parse_iff_encode_example :
    (parse (text " ..13k4m9q2x ") ≡ ok k4)
    ↔ (IsPayload k4 × (encode k4 ≡ some (map to_ascii_uppercase (trim (text " ..13k4m9q2x ")))))
parse_iff_encode_example = parse_iff_encode (text " ..13k4m9q2x ") k4
