-- ===== src/Control/Tests.antt =====
-- Codes that are printed and scanned.
use taskologic.Prelude.{◌≡◌, refl, List, [], ◌∷◌}
use taskologic.Prelude.Text.{text, to_ascii_uppercase}
use taskologic.Control.{Control, Value, OffsetUnit, NamedKey, Field, encode, encode_one, body}
use taskologic.Prelude.Strings.{decimal, parse_unsigned}
use taskologic.Control.Parse.{
  parse, parse_one, parse_two, parse_letters, parsed, failed, panics, unknown_command, empty_code,
}

abbrev pub plus_two_hours : List Control
plus_two_hours =
    Control.set Field.due
    ∷ Control.value Value.now
    ∷ Control.value (Value.plus 120 OffsetUnit.months)
    ∷ Control.named_times NamedKey.tab 12
    ∷ []

printed : encode plus_two_hours ≡ text "--1SU/N/P120MO/XT12--"
unfolding encode body encode_one decimal
printed = refl

scanned : parse (text "su/N/P120MO/XT12") ≡ parsed plus_two_hours
unfolding parse parse_one to_ascii_uppercase parse_two parse_letters parse_unsigned
scanned = refl

panicked : parse (text "NTé") ≡ panics
unfolding parse parse_one to_ascii_uppercase parse_two parse_letters parse_unsigned
panicked = refl

blank : parse (text "  ") ≡ failed empty_code
unfolding parse parse_one to_ascii_uppercase parse_two parse_letters parse_unsigned
blank = refl

-- The key `/` is printed as a code that is refused.
slash_key : parse (body (Control.key b'/' ∷ [])) ≡ failed (unknown_command (text "K"))
unfolding parse parse_one to_ascii_uppercase parse_two parse_letters body encode_one
slash_key = refl
