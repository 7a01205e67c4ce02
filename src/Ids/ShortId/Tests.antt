-- ===== src/Ids/ShortId/Tests.antt =====
-- Runs of `ShortId`, and its laws at concrete ids.
use taskologic.Prelude.{◌<◌, ◌≡◌, refl, ◌↔◌, map}
use taskologic.Prelude.Lists.{length, All}
use taskologic.Prelude.Result.{ok, err}
use taskologic.Prelude.Text.{text, to_ascii_uppercase}
use taskologic.Ids.{base36_value}
use taskologic.Ids.ShortId.{
  ShortId, len, space, digit, from_index, index, parse, wrong_length, bad_char, IsShortId,
}
use taskologic.Ids.ShortId.Laws.{from_index-IsShortId, from_index-index, index-lt-space}
use taskologic.Ids.ShortId.Parse.{IsBase36, parse_iff, parse-IsShortId}

abbrev id_36 : ShortId
id_36 = record { bytes = text "000010" }

abbrev k4 : ShortId
k4 = record { bytes = text "K4M9Q2" }

runs :
    (from_index 36 ≡ id_36)
    × (parse (text "k4m9q2") ≡ ok k4)
    × (parse (text "K4M9Q") ≡ err (wrong_length 5))
    × (parse (text "K4M9Q2X") ≡ err (wrong_length 7))
    × (parse (text "K4M9Q.") ≡ err (bad_char b'.'))
unfolding from_index digit parse base36_value
runs = (refl, refl, refl, refl, refl)

id_36-IsShortId : IsShortId id_36
unfolding from_index digit
id_36-IsShortId = from_index-IsShortId 36

from_index-index_example : from_index (index id_36) ≡ id_36
from_index-index_example = from_index-index id_36 id_36-IsShortId

index-lt-space_example : index id_36 < space
index-lt-space_example = index-lt-space id_36 id_36-IsShortId

parse_iff_example : (parse (text "00001a") ≡ ok id_36) ↔ (
    (length (text "00001a") ≡ len)
    × All IsBase36 (text "00001a")
    × (id_36 ≡ record { bytes = map to_ascii_uppercase (text "00001a") }))
parse_iff_example = parse_iff (text "00001a") id_36

parse-IsShortId_example : IsShortId k4
unfolding parse base36_value digit
parse-IsShortId_example = parse-IsShortId (text "k4m9q2") k4 refl
