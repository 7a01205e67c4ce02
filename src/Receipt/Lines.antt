-- ===== src/Receipt/Lines.antt =====
-- layout.rs: every line of wrapped text fits, and nothing but blanks is lost or moved.
use mathlib.Core.List.{append_assoc, append-nil}
use taskologic.Prelude.{
  ℕ, zero, suc, ◌+◌, ◌≤◌, max, ◌≡◌, ◌⊎◌, refl, ap, sym, ◌∙◌, subst, inl, inr, ◌&&◌, List, [], ◌∷◌,
  ◌++◌, arith,
}
use taskologic.Prelude.Tests.{ltb, Bool-cases}
use taskologic.Prelude.Lists.{length, take, drop, All, length-append}
use taskologic.Prelude.Text.{Text, is_whitespace}
use taskologic.Receipt.{
  words_from, Wrap, flush, split_long, spaced, broken, add_word, wrap_word, wrap_words, wrap,
}
use taskologic.Receipt.Ink.{
  ink, inks, Fits, ink-append, inks-words_from, append_take-drop, length-take, All-append,
  length-drop, inks-snoc, more_line,
}

-- Between two words: the length is kept, the lines fit, and so much ink has been set.
record IsLaid (cols : ℕ) (set : Text) (w : Wrap) : Type 0 where
  counted : w.cur_len ≡ length w.cur
  short : w.cur_len ≤ cols
  lines_fit : All (Fits cols) w.lines
  all_set : inks w.lines ++ ink w.cur ≡ set

flush-IsLaid :
    (cols : ℕ) (set : Text) (w : Wrap)
    → IsLaid cols set w
    → IsLaid cols set (flush w) × ((flush w).cur ≡ []) × ((flush w).cur_len ≡ 0)
flush-IsLaid cols set w i = elim (Bool-cases (ltb 0 w.cur_len)) [
  | inl some_left ↦ rw some_left (
    record {
      counted = refl;
      short = omega arith;
      lines_fit =
          All-append (Fits cols) w.lines (w.cur ∷ []) i.lines_fit
            ((ground (arith, i.counted), omega (arith, i.counted, i.short)), tt);
      all_set = append-nil (inks (w.lines ++ w.cur ∷ [])) ∙ inks-snoc w.lines w.cur ∙ i.all_set;
    },
    refl,
    refl,
  )
  | inr none_left ↦ rw none_left (i, empty w.cur (ground (arith, i.counted)), ground arith)
]
  where
    empty : (s : Text) → length s ≡ 0 → s ≡ []
    empty [] h = refl
    empty (c ∷ s) h = absurd (omega arith)

-- A line taken from a long word.
line_taken :
    (cols : ℕ) (set word : Text) (w : Wrap)
    → 1 ≤ cols
    → cols ≤ length word
    → IsLaid cols set w
    → IsLaid cols
        (set ++ ink (take cols word))
        (record (flush w) { lines = (flush w).lines ++ take cols word ∷ [] })
line_taken cols set word w p h i =
    let (f, c, z) = flush-IsLaid cols set w i in
    record {
      counted = f.counted;
      short = f.short;
      lines_fit =
          All-append (Fits cols) (flush w).lines (take cols word ∷ []) f.lines_fit
            ((omega (arith, length-take cols word h), omega (arith, length-take cols word h)), tt);
      all_set =
          more_line (flush w).lines (take cols word) (flush w).cur c
          ∙ ap (λ t. t ++ ink (take cols word)) f.all_set;
    }

-- A word that has been split: what is left of it fits a line, and the rest of its ink is set.
abbrev IsSplit : ℕ → Text → Text → Text × Wrap → Type 0
IsSplit cols set word r =
    (set' : Text) × IsLaid cols set' r.1 × (set' ++ ink r.0 ≡ set ++ ink word) × (length r.0 ≤ cols)

split_long-IsSplit :
    (turns cols : ℕ) (set word : Text) (w : Wrap)
    → 1 ≤ cols
    → length word ≤ turns
    → IsLaid cols set w
    → IsSplit cols set word (split_long turns cols word w)
unfolding split_long
split_long-IsSplit zero cols set word w p h i = (set, i, refl, omega arith)
split_long-IsSplit (suc turns) cols set word w p h i = elim (Bool-cases (ltb cols (length word))) [
  | inr short ↦ rw (split_long, short) (set, i, refl, ground arith)
  | inl long ↦
      let line = take cols word in
      let (set', i', e, l) =
        split_long-IsSplit turns cols (set ++ ink line) (drop cols word)
          (record (flush w) { lines = (flush w).lines ++ line ∷ [] }) p
          (omega (arith, length-drop cols word)) (line_taken cols set word w p (ground arith) i) in
      rw (split_long, long)
        (
          set',
          i',
          e
              ∙ append_assoc set (ink line) (ink (drop cols word))
              ∙ ap (λ t. set ++ t)
                  (sym (ink-append line (drop cols word)) ∙ ap ink (append_take-drop cols word)),
          l,
        )
]

-- Room for a word: the line is empty, or the word goes on it behind a blank.
abbrev HasRoom : ℕ → ℕ → Wrap → Type 0
HasRoom cols wl w = (w.cur_len ≡ 0) ⊎ (w.cur_len + 1 + wl ≤ cols)

broken-IsLaid :
    (cols wl : ℕ) (set : Text) (w : Wrap)
    → IsLaid cols set w
    → IsLaid cols set (broken cols wl w) × HasRoom cols wl (broken cols wl w)
broken-IsLaid cols wl set w i =
    elim (Bool-cases (ltb 0 w.cur_len && ltb cols (w.cur_len + 1 + wl))) [
      | inl full ↦ let (f, c, z) = flush-IsLaid cols set w i in rw full (f, inl z)
      | inr room ↦ rw room (i, ground arith)
    ]

ink-word :
    (set before cur word : Text)
    → before ++ ink cur ≡ set
    → before ++ ink (cur ++ word) ≡ set ++ ink word
ink-word set before cur word e =
    ap (λ t. before ++ t) (ink-append cur word)
    ∙ sym (append_assoc before (ink cur) (ink word))
    ∙ ap (λ t. t ++ ink word) e

put_word :
    (cols : ℕ) (set word : Text) (w : Wrap)
    → length word ≤ cols
    → HasRoom cols (length word) w
    → IsLaid cols set w
    → IsLaid cols (set ++ ink word) (record (spaced w) {
      cur = (spaced w).cur ++ word;
      cur_len = (spaced w).cur_len + length word;
    })
unfolding is_whitespace
put_word cols set word w h r i = elim (Bool-cases (ltb 0 w.cur_len)) [
  | inl begun ↦ rw begun (record {
    counted = omega (
      arith,
      i.counted,
      length-append w.cur (b' ' ∷ []),
      length-append (w.cur ++ b' ' ∷ []) word,
    );
    short = ground arith;
    lines_fit = i.lines_fit;
    all_set = ink-word set (inks w.lines) (w.cur ++ b' ' ∷ []) word (
        ap (λ t. inks w.lines ++ t) (ink-append w.cur (b' ' ∷ []) ∙ append-nil (ink w.cur))
        ∙ i.all_set);
  })
  | inr empty ↦ rw empty (record {
    counted = omega (arith, i.counted, length-append w.cur word);
    short = ground arith;
    lines_fit = i.lines_fit;
    all_set = ink-word set (inks w.lines) w.cur word i.all_set;
  })
]

wrap_word-IsLaid :
    (cols : ℕ) (set word : Text) (w : Wrap)
    → 1 ≤ cols
    → IsLaid cols set w
    → IsLaid cols (set ++ ink word) (wrap_word cols word w)
unfolding wrap_word
wrap_word-IsLaid cols set word w p i =
    let (set', i', e, l) = split_long-IsSplit (length word) cols set word w p (omega arith) i in
    let (rest, w') = split_long (length word) cols word w in
    let (b, room) = broken-IsLaid cols (length rest) set' w' i' in
    subst (λ t. IsLaid cols t (add_word cols rest w')) e
      (put_word cols set' rest (broken cols (length rest) w') l room b)

wrap_words-IsLaid :
    (cols : ℕ) (set : Text) (ws : List Text) (w : Wrap)
    → 1 ≤ cols
    → IsLaid cols set w
    → IsLaid cols (set ++ inks ws) (wrap_words cols ws w)
unfolding wrap_words
wrap_words-IsLaid cols set [] w p i = subst (λ t. IsLaid cols t w) (sym (append-nil set)) i
wrap_words-IsLaid cols set (word ∷ ws) w p i =
    subst (λ t. IsLaid cols t (wrap_words cols ws (wrap_word cols word w)))
      (append_assoc set (ink word) (inks ws))
      (wrap_words-IsLaid cols (set ++ ink word) ws (wrap_word cols word w) p
        (wrap_word-IsLaid cols set word w p i))

-- Text of any length wraps into lines that are not empty and not wider than the paper, and the
-- characters of the lines, one after the other and without blanks, are those of the text: no
-- character is lost, doubled or moved, however long a word is. A width of 0 counts as 1.
pub wrap-Fits :
    (s : Text) (cols : ℕ) → All (Fits (max cols 1)) (wrap s cols) × (inks (wrap s cols) ≡ ink s)
unfolding wrap
wrap-Fits s cols =
    let none_yet : Wrap = record { lines = []; cur = []; cur_len = 0 } in
    let start : IsLaid (max cols 1) [] none_yet = record {
      counted = refl;
      short = omega arith;
      lines_fit = tt;
      all_set = refl;
    } in
    let w = wrap_words (max cols 1) (words_from [] s) none_yet in
    let i = wrap_words-IsLaid (max cols 1) [] (words_from [] s) none_yet (omega arith) start in
    let (f, c, z) = flush-IsLaid (max cols 1) (inks (words_from [] s)) w i in
    (f.lines_fit, last_line (flush w).lines (flush w).cur c ∙ f.all_set ∙ inks-words_from [] s)
  where
    last_line : (ls : List Text) (cur : Text) → cur ≡ [] → inks ls ≡ inks ls ++ ink cur
    last_line ls cur e = rw e (sym (append-nil (inks ls)))
