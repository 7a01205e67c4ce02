-- ===== src/Control/Panics.antt =====
-- control.rs: where `Control::parse_one` panics.
use taskologic.Prelude.{
  ℕ, ◌-◌, ◌^◌, ◌≤◌, ◌≡◌, ◌≢◌, ◌⊎◌, ◌↔◌, refl, ap, ◌∙◌, inl, inr, Option, none, some, true, false,
  ◌&&◌, ◌||◌, [], ◌∷◌, ◌++◌, map, arith,
}
use taskologic.Prelude.Tests.{◌==◌, ltb, leb, Bool-cases, Option-cases, if-split}
use taskologic.Prelude.Result.{Result, ok, err}
use taskologic.Prelude.Text.{Text, to_ascii_uppercase}
use taskologic.Prelude.Strings.{byte_len, split_at, strip_prefix, is_ascii_digit, parse_unsigned}
use taskologic.Ids.ShortId
use taskologic.Ids.ShortId.{ShortId}
use taskologic.Control.{
  Control, ColumnRef, SlipChoice, text_intro, new_from_template, new_from_template_ask, print,
}
use taskologic.Control.Names.{
  lookup, words, column_from_code, key_from_code, in_range, field_from_code,
}
use taskologic.Control.Parse.{
  Outcome, parsed, failed, panics, parse_letters, or_print, bind, or_bad, id_after, parse_column,
  parse_key, parse_template, parse_two, parse_shape, parse_upper, parse_one, key_of, first_char,
  times, is_column, slip_of, parse_offset,
}
use taskologic.Control.Cuts.{cut_last-ascii, cut_last-wide, snoc_view}

abbrev pub Quiet : {A : Type 0} → Outcome A → Type 0
Quiet o = o ≢ panics

pub bind-Quiet :
    {A B : Type 0} (o : Outcome A) (f : A → Outcome B)
    → Quiet o
    → ((a : A) → Quiet (f a))
    → Quiet (bind o f)
bind-Quiet (parsed a) f q r = r a
bind-Quiet (failed e) f q r = λ h. cc
bind-Quiet panics f q r = absurd (q refl)

or_bad-Quiet : {A : Type 0} (token : Text) (o : Option A) → Quiet (or_bad token o)
or_bad-Quiet token none = λ h. cc
or_bad-Quiet token (some a) = λ h. cc

pub parsed-Quiet : {A : Type 0} (a : A) → Quiet (parsed a)
parsed-Quiet a = λ h. cc

id_after-Quiet : (token rest : Text) → Quiet (id_after token rest)
id_after-Quiet token rest = go (ShortId.parse rest) refl
  where
    go :
        (r : Result ShortId ShortId.ShortIdError)
        → ShortId.parse rest ≡ r
        → Quiet (id_after token rest)
    go (ok id) e = λ h. cc (rw (id_after, e) at h)
    go (err x) e = λ h. cc (rw (id_after, e) at h)

with_id-Quiet :
    (token rest : Text) (f : ShortId → Control)
    → Quiet (bind (id_after token rest) (λ id. parsed (f id)))
with_id-Quiet token rest f =
    bind-Quiet (id_after token rest) (λ id. parsed (f id)) (id_after-Quiet token rest)
      (λ id. parsed-Quiet (f id))

times-Quiet : (token : Text) (o : Option (Text × Text)) → Quiet (times token o)
times-Quiet token none = λ h. cc
times-Quiet token (some (k, n)) =
    bind-Quiet (or_bad token (in_range 99 (parse_unsigned (2 ^ 8) n))) _ (or_bad-Quiet token _)
      (λ n'.
        bind-Quiet (or_bad token (key_from_code k)) _ (or_bad-Quiet token _) (λ k'. parsed-Quiet _))

parse_key-Quiet : (token rest : Text) → Quiet (parse_key token rest)
parse_key-Quiet token rest = elim (Option-cases (key_from_code rest)) [
  | inl e ↦ λ h. times-Quiet token (split_at rest 1) (rw (parse_key, e) at h)
  | inr (k, e) ↦ λ h. cc (rw (parse_key, e) at h)
]

-- The template's branch panics just where the last character is not ASCII.
template-some :
    (token rest : Text) (command : ShortId → ColumnRef → Control) (id col : Text)
    → split_at rest (byte_len rest - 1) ≡ some (id, col)
    → Quiet (parse_template token rest command)
template-some token rest command id col e = λ h.
    bind-Quiet (id_after token id) _ (id_after-Quiet token id)
      (λ id'. bind-Quiet (or_bad token (first_char col)) _ (or_bad-Quiet token _) (λ c.
        bind-Quiet (or_bad token (column_from_code c)) _ (or_bad-Quiet token _)
          (λ col'. parsed-Quiet _)))
      (rw (parse_template, e) at h)

abbrev pub EndsWide : Text → Type 0
EndsWide rest = (s : Text) × (c : ℕ) × (rest ≡ s ++ c ∷ []) × (0x80 ≤ c)

template-panics :
    (token rest : Text) (command : ShortId → ColumnRef → Control)
    → parse_template token rest command ≡ panics
    → EndsWide rest
template-panics token rest command h = elim (snoc_view rest) [
  | inl e ↦
      absurd (template-some token rest command [] [] (ap (λ t. split_at t (byte_len t - 1)) e) h)
  | inr (s, c, e) ↦ elim (Bool-cases (ltb c 0x80)) [
    | inl ascii ↦ absurd (
        template-some token rest command (s ++ []) (c ∷ [])
          (ap (λ t. split_at t (byte_len t - 1)) e ∙ cut_last-ascii s c (ground arith)) h)
    | inr wide ↦ (s, c, e, ground arith)
  ]
]

panics-template :
    (token rest : Text) (command : ShortId → ColumnRef → Control)
    → EndsWide rest
    → parse_template token rest command ≡ panics
panics-template token rest command (s, c, e, h) =
    let cut = ap (λ t. split_at t (byte_len t - 1)) e ∙ cut_last-wide s c h in
    rw (parse_template, cut) refl

-- The letters of the arm that panics, and what follows them.
abbrev pub CutsChar : ℕ → ℕ → Text → Type 0
CutsChar first second rest = (first ≡ b'N') × ((second ≡ b'T') ⊎ (second ≡ b'A')) × EndsWide rest

module _ (token : Text) (first second : ℕ) (rest : Text) where
  abbrev Only : Outcome Control → Type 0
  Only o = o ≡ panics → CutsChar first second rest

  quiet : (o : Outcome Control) → Quiet o → Only o
  quiet o q = λ h. absurd (q h)

  quiet_id : (f : ShortId → Control) → Only (bind (id_after token rest) (λ id. parsed (f id)))
  quiet_id f = quiet _ (with_id-Quiet token rest f)

  letters-panics : Only (parse_letters token first second rest)
  unfolding parse_letters
  letters-panics =
      if-split ((first == b'P' || first == b'M') && is_ascii_digit second) Only
        (λ _. quiet _ (or_bad-Quiet token (parse_offset (first ∷ second ∷ rest))))
        (λ _.
          if-split (first == b'S' && leb (byte_len (first ∷ second ∷ rest)) 3) Only
            (λ _. quiet _ (
              bind-Quiet (or_bad token (field_from_code (second ∷ rest))) _ (or_bad-Quiet token _)
                (λ f. parsed-Quiet _)))
            (λ _.
              if-split (first == b'S' && second == b'H') Only (λ _. quiet_id _)
                (λ _.
                  if-split (first == b'X') Only
                    (λ _. quiet _ (parse_key-Quiet token (second ∷ rest)))
                    (λ _.
                      if-split (first == b'G' && second == b'B') Only (λ _. quiet_id _)
                        (λ _.
                          if-split (first == b'G' && second == b'A') Only (λ _. quiet_id _)
                            (λ _.
                              if-split (first == b'R' && second == b'P') Only (λ _. quiet_id _)
                                (λ _.
                                  if-split (first == b'R' && second == b'N') Only (λ _. quiet_id _)
                                    (λ _.
                                      if-split (first == b'N' && second == b'T') Only
                                        (λ e h. (
                                          ground arith,
                                          inl (ground arith),
                                          template-panics token rest new_from_template h,
                                        ))
                                        (λ _.
                                          if-split (first == b'N' && second == b'A') Only
                                            (λ e h. (
                                              ground arith,
                                              inr (ground arith),
                                              template-panics token rest new_from_template_ask h,
                                            ))
                                            (λ _. quiet _ (λ h. cc)))))))))))

  column-Quiet :
      is_column first second (first ∷ second ∷ rest) ≡ true → Quiet (parse_column token rest)
  column-Quiet = go rest
    where
      go :
          (r : Text)
          → is_column first second (first ∷ second ∷ r) ≡ true
          → Quiet (parse_column token r)
      go [] e = λ h. absurd (ground arith)
      go (c ∷ s) e =
          bind-Quiet (or_bad token (column_from_code c)) _ (or_bad-Quiet token _)
            (λ col. parsed-Quiet _)

  or_print-panics :
      (o : Option SlipChoice) (below : Outcome Control) → Only below → Only (or_print o below)
  or_print-panics none below f = f
  or_print-panics (some s) below f = quiet _ (parsed-Quiet (print s))

  two-panics : Only (parse_two token first second rest)
  unfolding parse_two
  two-panics =
      if-split (is_column first second (first ∷ second ∷ rest)) Only (λ e. quiet _ (column-Quiet e))
        (λ _. or_print-panics (slip_of first second (first ∷ second ∷ rest)) _ letters-panics)

panics-two :
    (token : Text) (first second : ℕ) (rest : Text)
    → CutsChar first second rest
    → parse_upper token (first ∷ second ∷ rest) ≡ panics
unfolding parse_upper parse_two parse_letters
panics-two token first second rest (e, inl d, w) =
    rw (e, d) (panics-template token rest new_from_template w)
panics-two token first second rest (e, inr d, w) =
    rw (e, d) (panics-template token rest new_from_template_ask w)

-- The same of a token in upper case.
abbrev pub CutsToken : Text → Type 0
CutsToken (first ∷ second ∷ rest) = CutsChar first second rest
CutsToken _ = ⊥

upper-panics : (token t : Text) → parse_upper token t ≡ panics → CutsToken t
unfolding parse_upper
upper-panics token t h = elim (Option-cases (lookup t words)) [
  | inl e ↦ shape-panics token t (rw (parse_upper, e) at h)
  | inr (c, e) ↦ cc (rw (parse_upper, e) at h)
]
  where
    shape-panics : (token t : Text) → parse_shape token t ≡ panics → CutsToken t
    shape-panics token [] h = cc
    shape-panics token (a ∷ []) h = cc
    shape-panics token (a ∷ b ∷ rest) h = two-panics token a b rest h

-- A token that is cut this way is neither free text nor a key.
no_text :
    (token : Text)
    → CutsToken (map to_ascii_uppercase token)
    → (strip_prefix text_intro token ≡ none) × (key_of token ≡ none)
unfolding to_ascii_uppercase
no_text [] h = absurd h
no_text (a ∷ []) h = absurd h
no_text (a ∷ b ∷ rest) (e, _, _) =
    let v : (b'V' == a) ≡ false = ground arith in
    let k : (a == b'K' || a == b'k') ≡ false = ground arith in (rw v refl, no_key a b rest k)
  where
    no_key :
        (a b : ℕ) (rest : Text) → (a == b'K' || a == b'k') ≡ false → key_of (a ∷ b ∷ rest) ≡ none
    no_key a b [] k = rw k refl
    no_key a b (c ∷ s) k = refl

-- `Control::parse_one` panics on exactly the tokens that in upper case begin with `NT` or `NA` and end,
-- after that, with a character that is not ASCII: the cut before the last byte falls inside it. On
-- every other token it returns a command or an error.
pub parse_one-panics_iff :
    (token : Text) → (parse_one token ≡ panics) ↔ CutsToken (map to_ascii_uppercase token)
unfolding parse_one
parse_one-panics_iff token = (
  λ h. elim (Option-cases (strip_prefix text_intro token)) [
    | inr (t, e) ↦ cc (rw (parse_one, e) at h)
    | inl e ↦ elim (Option-cases (key_of token)) [
      | inr (c, k) ↦ cc (rw (parse_one, e, k) at h)
      | inl k ↦ upper-panics token (map to_ascii_uppercase token) (rw (parse_one, e, k) at h)
    ]
  ],
  λ h. let (e, k) = no_text token h in rw (parse_one, e, k) (go (map to_ascii_uppercase token) h),
)
  where
    go : (t : Text) → CutsToken t → parse_upper token t ≡ panics
    go [] h = absurd h
    go (a ∷ []) h = absurd h
    go (a ∷ b ∷ rest) h = panics-two token a b rest h
