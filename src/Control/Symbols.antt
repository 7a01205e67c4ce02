-- ===== src/Control/Symbols.antt =====
-- control.rs: which codes print in CODE39.
use taskologic.Prelude.{
  ℕ, ◌*◌, ◌≤◌, ◌≡◌, ◌↔◌, ◌⊎◌, refl, inl, inr, subst, true, false, List, [], ◌∷◌, arith,
}
use taskologic.Prelude.Tests.{Bool-cases, &&-eq-true}
use taskologic.Prelude.Lists.{all, any, length, All}
use taskologic.Prelude.Text.{Text, text}
use taskologic.Control.{Control, key, value, free_text, encode_one, body, encode, is_text}
use taskologic.Print.{code39}
use taskologic.Control.Layout.{is_code39_char, needs_code128, code39_modules, symbology_for}
use taskologic.Control.Spelling.{is_code_char, all_mono, all-append}
use taskologic.Control.Commands.{IsCodable}
use taskologic.Control.Plain.{is_plain, encode_one-spelled}
use taskologic.Control.Body.{IsFrame, plain_or_key, text_shape}

plain-code39 :
    (c : Control) → IsCodable c → is_plain c ≡ true → all is_code39_char (encode_one c) ≡ true
plain-code39 c h p =
    all_mono is_code_char is_code39_char (encode_one c) (λ a e. ground arith)
      (ground (arith, encode_one-spelled c h p))

key-code39 :
    (k : ℕ) → needs_code128 (key k) ≡ false → all is_code39_char (encode_one (key k)) ≡ true
unfolding encode_one
key-code39 k h = ground arith

text-code39 :
    (t : Text)
    → needs_code128 (value (free_text t)) ≡ false
    → all is_code39_char (encode_one (value (free_text t))) ≡ true
unfolding encode_one
text-code39 t h = ground arith

one-code39 :
    (c : Control) → IsCodable c → needs_code128 c ≡ false → all is_code39_char (encode_one c) ≡ true
one-code39 c h n = elim (Bool-cases (is_text c)) [
  | inl t ↦
      let (s, e) = text_shape c t in rw e (text-code39 s (subst (λ d. needs_code128 d ≡ false) e n))
  | inr t ↦ elim (plain_or_key c t) [
    | inl p ↦ plain-code39 c h p
    | inr (k, e) ↦ rw e (key-code39 k (subst (λ d. needs_code128 d ≡ false) e n))
  ]
]

body-code39 :
    (cs : List Control)
    → IsFrame cs
    → any needs_code128 cs ≡ false
    → all is_code39_char (body cs) ≡ true
unfolding body
body-code39 [] h n = refl
body-code39 (c ∷ []) (h, _) n = one-code39 c h (ground arith)
body-code39 (c ∷ d ∷ cs) (h, _, _, hs) n =
    all-append is_code39_char (encode_one c) (b'/' ∷ body (d ∷ cs))
      (one-code39 c h (ground (arith, n))) (body-code39 (d ∷ cs) hs (ground (arith, n)))

payload-code39 :
    (cs : List Control)
    → IsFrame cs
    → any needs_code128 cs ≡ false
    → all is_code39_char (encode cs) ≡ true
unfolding encode
payload-code39 cs h n =
    ground (arith, all-append is_code39_char (body cs) (text "--") (body-code39 cs h n) refl)

-- The characters of CODE39.
abbrev pub IsCode39 : ℕ → Type 0
IsCode39 c =
    ((b'0' ≤ c) × (c ≤ b'9'))
    ⊎ (((b'A' ≤ c) × (c ≤ b'Z'))
        ⊎ ((c ≡ b' ')
            ⊎ ((c ≡ b'-')
                ⊎ ((c ≡ b'.') ⊎ ((c ≡ b'$') ⊎ ((c ≡ b'/') ⊎ ((c ≡ b'+') ⊎ (c ≡ b'%'))))))))

-- What CODE39 can print of a command as it is typed: a key and a text only in its own characters.
abbrev pub IsNarrow : Control → Type 0
IsNarrow (key k) = IsCode39 k
IsNarrow (value (free_text t)) = All IsCode39 t
IsNarrow _ = Unit

is_code39_char_iff : (c : ℕ) → (is_code39_char c ≡ true) ↔ IsCode39 c
is_code39_char_iff c = (λ h. ground arith, λ h. ground arith)

all-IsCode39 : (t : Text) → (all is_code39_char t ≡ true) ↔ All IsCode39 t
all-IsCode39 [] = (λ h. tt, λ h. refl)
all-IsCode39 (c ∷ t) =
    let (to, from) = is_code39_char_iff c in
    let (on, back) = all-IsCode39 t in
    (
      λ h. let (a, b) = &&-eq-true (is_code39_char c) (all is_code39_char t) h in (to a, on b),
      λ (a, b). cc (from a, back b),
    )

IsNarrow-iff : (c : Control) → (needs_code128 c ≡ false) ↔ IsNarrow c
IsNarrow-iff (key k) =
    let (to, from) = is_code39_char_iff k in (λ h. to (ground arith), λ h. cc (from h))
IsNarrow-iff (value (free_text t)) =
    let (to, from) = all-IsCode39 t in (λ h. to (ground arith), λ h. cc (from h))
IsNarrow-iff _ = (λ h. tt, λ h. refl)

any-IsNarrow : (cs : List Control) → (any needs_code128 cs ≡ false) ↔ All IsNarrow cs
any-IsNarrow [] = (λ h. tt, λ h. refl)
any-IsNarrow (c ∷ cs) =
    let (to, from) = IsNarrow-iff c in
    let (on, back) = any-IsNarrow cs in
    (λ h. (to (ground arith), on (ground arith)), λ (a, b). cc (from a, back b))

-- A code of commands that can be read back prints in CODE39 exactly when its keys and its free text have
-- only characters of CODE39 and its payload, frame and all, fits the paper at two dots per module: no
-- other command forces CODE128.
pub symbology_for_iff :
    (cs : List Control) (dots : ℕ)
    → IsFrame cs
    → (symbology_for cs dots ≡ code39)
      ↔ (All IsNarrow cs × (code39_modules (length (encode cs)) * 2 ≤ dots))
unfolding symbology_for
symbology_for_iff cs dots h =
    let (to, from) = any-IsNarrow cs in
    elim (Bool-cases (any needs_code128 cs)) [
      | inl wide ↦ (λ e. cc (rw (symbology_for, wide) at e), λ (n, m). cc (from n))
      | inr narrow ↦
          let plain = payload-code39 cs h narrow in
          (
            λ e. (to narrow, ground (arith, rw (symbology_for, narrow, plain) at e)),
            λ (n, m). rw (symbology_for, narrow, plain) (ground arith),
          )
    ]
