-- ===== src/Control/Examples.antt =====
-- The laws of control codes at printed codes.
use taskologic.Prelude.{◌≤◌, ◌*◌, ◌≡◌, ◌≢◌, ◌↔◌, refl, List, [], ◌∷◌, ◌++◌, map, arith}
use taskologic.Prelude.Lists.{All, length}
use taskologic.Prelude.Text.{text, to_ascii_uppercase}
use taskologic.Barcode.Detector.{ScanKey, ScanDetector, char, enter, held, push_all, Feed}
use taskologic.Barcode.Detector
use taskologic.Barcode.Detector.Steps.{done_at}
use taskologic.Control.{Control, body, encode, encode_one}
use taskologic.Control.Parse.{parse, parse_one, parsed, panics}
use taskologic.Print.{code39}
use taskologic.Control.Layout.{
  code128_modules, code39_modules, chunks, most_chars, chunks_of, symbology_for,
}
use taskologic.Control.Tests.{plus_two_hours}
use taskologic.Control.Body.{IsFrame, parse-body}
use taskologic.Control.Panics.{CutsToken}
use taskologic.Control.Ascii.{parse-ascii}
use taskologic.Control.Panics.{parse_one-panics_iff}
use taskologic.Control.Pieces.{stitched, chunks-stitched}
use taskologic.Control.Symbols.{IsNarrow, symbology_for_iff}
use taskologic.Control.Scan.{Keys, silent}
use taskologic.Control.Read.{framed, push_all-chunks}

printable : IsFrame plus_two_hours
printable = (
  tt,
  refl,
  refl,
  (tt, refl, refl, (omega arith, refl, refl, ((omega arith, omega arith), refl))),
)

parse-body_example : parse (body plus_two_hours) ≡ parsed plus_two_hours
parse-body_example = parse-body plus_two_hours printable

parse-ascii_example : parse (text "NTABC/+-") ≢ panics
parse-ascii_example = parse-ascii (text "NTABC/+-") refl

parse_one-panics_iff_example :
    (parse_one (text "ntABCé") ≡ panics) ↔ CutsToken (map to_ascii_uppercase (text "ntABCé"))
parse_one-panics_iff_example = parse_one-panics_iff (text "ntABCé")

chunks-stitched_example :
    (stitched (chunks (text "--1SU/P120--") 100) ≡ text "--1SU/P120--")
    × All (λ p. code128_modules (length p) ≤ 100) (chunks (text "--1SU/P120--") 100)
chunks-stitched_example = chunks-stitched (text "--1SU/P120--") 100 (omega arith)

symbology_for_iff_example :
    (symbology_for plus_two_hours 640 ≡ code39)
    ↔ (All IsNarrow plus_two_hours × (code39_modules (length (encode plus_two_hours)) * 2 ≤ 640))
symbology_for_iff_example = symbology_for_iff plus_two_hours 640 printable

abbrev move_up : List Control
move_up = Control.move_up ∷ []

-- On paper 80 dots wide the code is cut into `--1M` and `U--`; there is an Enter between them.
abbrev pieces : Keys
pieces = (char b'M', 30) ∷ (enter, 40) ∷ (char b'U', 5000) ∷ (char b'-', 5010) ∷ []

push_all-chunks_example :
    (push_all Detector.new (framed 0 10 20 pieces 5020) ≡ (
      done_at Detector.new 5020 5020,
      held ∷ held ∷ held ∷ silent pieces ++ Feed.frame (body move_up) ∷ [],
    ))
    × (parse (body move_up) ≡ parsed move_up)
push_all-chunks_example =
    push_all-chunks Detector.new move_up 80 0 10 20 5020 pieces (refl, refl, refl, refl) refl
      (tt, refl) (unfold body encode_one in refl) (omega arith)
      (unfold chunks most_chars chunks_of encode body encode_one in refl) (omega arith)
      (omega arith) (refl, (refl, (refl, (refl, (refl, tt)))))
