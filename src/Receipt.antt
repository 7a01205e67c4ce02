-- ===== src/Receipt.antt =====
-- crates/taskologic-print/src/layout.rs: how text is cut to the width of a receipt.
pub mod Ink
pub mod Lines
pub mod Tests
use taskologic.Prelude.{ℕ, zero, suc, ◌+◌, max, Bool, true, false, ◌&&◌, List, [], ◌∷◌, ◌++◌}
use taskologic.Prelude.Tests.{ltb, if◌then◌else◌}
use taskologic.Prelude.Lists.{length, take, drop}
use taskologic.Prelude.Text.{Text, is_whitespace}

-- `split_whitespace`; `cur` is the word that is being read.
unfoldable pub words_from : Text → Text → List Text
words_from [] [] = []
words_from (d ∷ cur) [] = (d ∷ cur) ∷ []
words_from [] (c ∷ s) = if is_whitespace c then words_from [] s else words_from (c ∷ []) s
words_from (d ∷ cur) (c ∷ s) = elim (is_whitespace c) [
  | true ↦ (d ∷ cur) ∷ words_from [] s
  | false ↦ words_from ((d ∷ cur) ++ c ∷ []) s
]

-- The variables of `wrap`.
pub record Wrap : Type 0 where
  pub lines : List Text
  pub cur : Text
  pub cur_len : ℕ

-- `if cur_len > 0 { lines.push(take(&mut cur)); cur_len = 0; }`
abbrev pub flush : Wrap → Wrap
flush w =
    if ltb 0 w.cur_len then record { lines = w.lines ++ w.cur ∷ []; cur = []; cur_len = 0 } else w

-- The loop that splits a word longer than a line; each turn takes a line from the word.
unfoldable pub split_long : ℕ → ℕ → Text → Wrap → Text × Wrap
split_long zero cols word w = (word, w)
split_long (suc turns) cols word w =
    let f = flush w in
    let more =
      split_long turns cols (drop cols word)
        (record f { lines = f.lines ++ take cols word ∷ [] }) in
    if ltb cols (length word) then more else (word, w)

-- What is done with the rest of a word, which fits a line.
abbrev pub spaced : Wrap → Wrap
spaced w =
    if ltb 0 w.cur_len then record w { cur = w.cur ++ b' ' ∷ []; cur_len = w.cur_len + 1 } else w

abbrev pub broken : ℕ → ℕ → Wrap → Wrap
broken cols wl w = if ltb 0 w.cur_len && ltb cols (w.cur_len + 1 + wl) then flush w else w

abbrev pub add_word : ℕ → Text → Wrap → Wrap
add_word cols word w =
    let s = spaced (broken cols (length word) w) in
    record s { cur = s.cur ++ word; cur_len = s.cur_len + length word }

unfoldable pub wrap_word : ℕ → Text → Wrap → Wrap
unfolding split_long
wrap_word cols word w =
    let (rest, w') = split_long (length word) cols word w in add_word cols rest w'

unfoldable pub wrap_words : ℕ → List Text → Wrap → Wrap
unfolding wrap_word
wrap_words cols [] w = w
wrap_words cols (word ∷ ws) w = wrap_words cols ws (wrap_word cols word w)

unfoldable pub wrap : Text → ℕ → List Text
unfolding words_from wrap_words
wrap s cols =
    let none_yet : Wrap = record { lines = []; cur = []; cur_len = 0 } in
    (flush (wrap_words (max cols 1) (words_from [] s) none_yet)).lines

-- `String::pop`, and what is pushed then.
abbrev pub cut_mark : Text → Text
cut_mark [] = b'~' ∷ []
cut_mark (c ∷ []) = b'~' ∷ []
cut_mark (c ∷ d ∷ s) = c ∷ cut_mark (d ∷ s)

unfoldable pub fit : Text → ℕ → Text
fit s cols =
    let out = take cols s in if ltb cols (length s) && ltb 1 cols then cut_mark out else out
