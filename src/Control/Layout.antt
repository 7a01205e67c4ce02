-- ===== src/Control/Layout.antt =====
-- control.rs: how a code is laid out on paper: its symbology, and the pieces of one that is too wide.
use taskologic.Prelude.{
  ℕ, zero, suc, ◌+◌, ◌-◌, ◌*◌, max, Bool, true, false, not, ◌&&◌, ◌||◌, List, [], ◌∷◌, ◌++◌,
}
use taskologic.Prelude.Tests.{◌==◌, leb, if◌then◌else◌}
use taskologic.Prelude.Lists.{length, any, all}
use taskologic.Prelude.Text.{Text}
use taskologic.Print.{Symbology, code39, code128}
use taskologic.Control.{Control, key, value, free_text, encode}

abbrev pub is_code39_char : ℕ → Bool
is_code39_char c =
    (leb b'0' c && leb c b'9')
    || (leb b'A' c && leb c b'Z')
    || c == b' '
    || c == b'-'
    || c == b'.'
    || c == b'$'
    || c == b'/'
    || c == b'+'
    || c == b'%'

-- `Control::needs_code128`
abbrev pub needs_code128 : Control → Bool
needs_code128 (key c) = not (is_code39_char c)
needs_code128 (value (free_text t)) = not (all is_code39_char t)
needs_code128 _ = false

abbrev pub code39_modules : ℕ → ℕ
code39_modules chars = (chars + 2) * 13 - 1

abbrev pub code128_modules : ℕ → ℕ
code128_modules chars = (chars + 2) * 11 + 13

abbrev pub modules_in : Symbology → ℕ → ℕ
modules_in code39 chars = code39_modules chars
modules_in _ chars = code128_modules chars

abbrev pub fits : ℕ → Symbology → ℕ → Bool
fits chars symbology dots = leb (modules_in symbology chars * 2) dots

unfoldable pub symbology_for : List Control → ℕ → Symbology
unfolding encode
symbology_for cs dots =
    let payload = encode cs in
    if any needs_code128 cs || not (all is_code39_char payload)
    then code128
    else if fits (length payload) code39 dots
    then code39
    else code128

-- `(1..=n).rev().find(|n| code128_modules(*n) <= dots).unwrap_or(1)`
unfoldable pub most_chars : ℕ → ℕ → ℕ
most_chars zero dots = 1
most_chars (suc n) dots =
    let fewer = most_chars n dots in if leb (code128_modules (suc n)) dots then suc n else fewer

-- `chars.chunks(size)`: the loop over the characters, with the piece that is being filled.
unfoldable pub chunks_of : ℕ → Text → Text → List Text
chunks_of size piece [] = piece ∷ []
chunks_of size piece (c ∷ s) = elim (leb size (length piece)) [
  | true ↦ piece ∷ chunks_of size (c ∷ []) s
  | false ↦ chunks_of size (piece ++ c ∷ []) s
]

unfoldable pub chunks : Text → ℕ → List Text
unfolding most_chars chunks_of
chunks payload dots =
    let most = most_chars (length payload) dots in
    let pieces = chunks_of (max most 3) [] payload in
    if leb (length payload) most then payload ∷ [] else pieces
