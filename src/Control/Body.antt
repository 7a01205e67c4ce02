-- ===== src/Control/Body.antt =====
-- control.rs: `parse` reads the commands of a frame that `encode` writes.
use taskologic.Prelude.{
  ℕ, zero, suc, ◌+◌, ◌≤◌, ◌≡◌, ◌⊎◌, refl, ap, ◌∙◌, subst, inl, inr, none, some, Bool, true, false,
  not, ◌&&◌, List, [], ◌∷◌, ◌++◌, arith,
}
use mathlib.Core.List.{append-nil}
use taskologic.Prelude.Tests.{◌==◌, Bool-cases}
use taskologic.Prelude.Lists.{all, length, length-append}
use taskologic.Prelude.Text.{Text, text_eq, is_whitespace, trim, trim-not_empty}
use taskologic.Prelude.Strings.{strip_prefix}
use taskologic.Control.{Control, key, value, free_text, encode_one, body, is_text, text_intro}
use taskologic.Control.Parse.{parsed, bind, cut_join, parse_one, parse_rest, parse}
use taskologic.Control.Spelling.{is_code_char, all_mono}
use taskologic.Control.Commands.{IsCodable}
use taskologic.Control.RoundTrip.{parse_one-encode_one}
use taskologic.Control.Plain.{is_plain, has_head, encode_one-spelled}

-- The key `/` cannot be told from the sign between commands.
abbrev pub is_join_key : Control → Bool
is_join_key (key c) = c == b'/'
is_join_key _ = false

-- Commands that can be printed in one code: at least one, and free text comes last.
abbrev pub IsFrame : List Control → Type 0
IsFrame [] = ⊥
IsFrame (c ∷ []) = IsCodable c × (is_join_key c ≡ false)
IsFrame (c ∷ d ∷ cs) =
    IsCodable c × (is_join_key c ≡ false) × (is_text c ≡ false) × IsFrame (d ∷ cs)

abbrev no_join : ℕ → Bool
no_join c = not (c == b'/')

-- What a command other than free text is spelled with: it begins with a capital and has no join.
abbrev is_token : Text → Bool
is_token s = has_head s && all no_join s

pub plain_or_key : (c : Control) → is_text c ≡ false → (is_plain c ≡ true) ⊎ ((k : ℕ) × (c ≡ key k))
plain_or_key (key k) t = inr (k, refl)
plain_or_key (value (free_text s)) t = cc
plain_or_key c t = inl refl

plain-token : (c : Control) → IsCodable c → is_plain c ≡ true → is_token (encode_one c) ≡ true
plain-token c h p = ground (
  arith,
  encode_one-spelled c h p,
  all_mono is_code_char no_join (encode_one c) (λ a e. ground arith),
)

key-token : (k : ℕ) → (k == b'/') ≡ false → is_token (encode_one (key k)) ≡ true
unfolding encode_one
key-token k h = ground arith

encode_one-token :
    (c : Control)
    → IsCodable c
    → is_join_key c ≡ false
    → is_text c ≡ false
    → is_token (encode_one c) ≡ true
encode_one-token c h j t = elim (plain_or_key c t) [
  | inl p ↦ plain-token c h p
  | inr (k, e) ↦ rw e (key-token k (subst (λ d. is_join_key d ≡ false) e j))
]

cut_join-none : (s : Text) → all no_join s ≡ true → cut_join s ≡ none
cut_join-none [] h = refl
cut_join-none (c ∷ s) h = ground (arith, cut_join-none s)

cut_join-append : (s t : Text) → all no_join s ≡ true → cut_join (s ++ b'/' ∷ t) ≡ some (s, t)
cut_join-append [] t h = refl
cut_join-append (c ∷ s) t h =
    let other : (c == b'/') ≡ false = ground arith in
    rw (cut_join-append s t (ground arith), other) refl

strip-head : (s t : Text) → has_head s ≡ true → strip_prefix text_intro (s ++ t) ≡ none
strip-head [] t h = cc
strip-head (a ∷ s) t h = let other : (b'V' == a) ≡ false = ground arith in rw other refl

-- The head of a code.
has_head-head : (s t : Text) → has_head s ≡ true → text_eq (trim (s ++ t)) [] ≡ false
unfolding is_whitespace
has_head-head [] t h = cc
has_head-head (a ∷ s) t h = trim-not_empty a (s ++ t) (ground arith)

text-not_blank :
    (t rest : Text) → text_eq (trim (encode_one (value (free_text t)) ++ rest)) [] ≡ false
unfolding encode_one is_whitespace
text-not_blank t rest = trim-not_empty b'V' (b'.' ∷ t ++ rest) refl

pub text_shape : (c : Control) → is_text c ≡ true → (t : Text) × (c ≡ value (free_text t))
text_shape (value (free_text t)) h = (t, refl)
text_shape c h = cc

text_turn :
    (turns : ℕ) (t : Text)
    → parse_rest (suc turns) (encode_one (value (free_text t))) ≡ parsed (value (free_text t) ∷ [])
unfolding parse_rest parse_one encode_one
text_turn turns t = refl

-- One turn of the loop, on a command that is the last and on one that is not.
last_turn :
    (turns : ℕ) (c : Control)
    → IsCodable c
    → is_join_key c ≡ false
    → parse_rest (suc turns) (encode_one c) ≡ parsed (c ∷ [])
unfolding parse_rest
last_turn turns c h j = elim (Bool-cases (is_text c)) [
  | inl t ↦ let (s, e) = text_shape c t in rw e (text_turn turns s)
  | inr t ↦
      let spelled = encode_one-token c h j t in
      let head : has_head (encode_one c) ≡ true = ground arith in
      let whole =
        subst (λ s. strip_prefix text_intro s ≡ none) (append-nil (encode_one c))
          (strip-head (encode_one c) [] head) in
      rw (parse_rest, whole, cut_join-none (encode_one c) (ground arith), parse_one-encode_one c h)
        refl
]

inner_turn :
    (turns : ℕ) (c : Control) (rest : Text)
    → IsCodable c
    → is_join_key c ≡ false
    → is_text c ≡ false
    → parse_rest (suc turns) (encode_one c ++ b'/' ∷ rest)
      ≡ bind (parse_rest turns rest) (λ cs. parsed (c ∷ cs))
unfolding parse_rest
inner_turn turns c rest h j t =
    let spelled = encode_one-token c h j t in
    let head : has_head (encode_one c) ≡ true = ground arith in
    rw
      (
        parse_rest,
        strip-head (encode_one c) (b'/' ∷ rest) head,
        cut_join-append (encode_one c) rest (ground arith),
        parse_one-encode_one c h,
      )
      refl

-- A turn for each command is enough.
turns_enough :
    (turns : ℕ) (cs : List Control)
    → IsFrame cs
    → length cs ≤ turns
    → parse_rest turns (body cs) ≡ parsed cs
unfolding body
turns_enough turns [] h l = absurd h
turns_enough zero (c ∷ cs) h l = absurd (omega arith)
turns_enough (suc turns) (c ∷ []) (h, j) l = last_turn turns c h j
turns_enough (suc turns) (c ∷ d ∷ cs) (h, j, t, hs) l =
    inner_turn turns c (body (d ∷ cs)) h j t
    ∙ ap (λ o. bind o (λ rest. parsed (c ∷ rest))) (turns_enough turns (d ∷ cs) hs (omega arith))

length-body : (cs : List Control) → length cs ≤ length (body cs) + 1
unfolding body
length-body [] = omega arith
length-body (c ∷ []) = omega arith
length-body (c ∷ d ∷ cs) =
    omega (arith, length-body (d ∷ cs), length-append (encode_one c) (b'/' ∷ body (d ∷ cs)))

one-not_blank :
    (c : Control) (rest : Text)
    → IsCodable c
    → is_join_key c ≡ false
    → text_eq (trim (encode_one c ++ rest)) [] ≡ false
one-not_blank c rest h j = elim (Bool-cases (is_text c)) [
  | inl t ↦ let (s, e) = text_shape c t in rw e (text-not_blank s rest)
  | inr t ↦
      let spelled = encode_one-token c h j t in has_head-head (encode_one c) rest (ground arith)
]

-- A code is not blank.
body-not_blank : (cs : List Control) → IsFrame cs → text_eq (trim (body cs)) [] ≡ false
unfolding body
body-not_blank [] h = absurd h
body-not_blank (c ∷ []) (h, j) =
    subst (λ s. text_eq (trim s) [] ≡ false) (append-nil (encode_one c)) (one-not_blank c [] h j)
body-not_blank (c ∷ d ∷ cs) (h, j, _, _) = one-not_blank c (b'/' ∷ body (d ∷ cs)) h j

-- The commands of a code, printed, are read back: `parse` of the body that `encode` puts into the frame
-- returns the commands. There is at least one, none is the key `/`, free text comes last, and numbers
-- are in the ranges that the source documents.
pub parse-body : (cs : List Control) → IsFrame cs → parse (body cs) ≡ parsed cs
unfolding parse
parse-body cs h =
    rw (parse, body-not_blank cs h) (turns_enough (length (body cs) + 1) cs h (length-body cs))
