-- ===== src/Barcode/Payload/Laws.antt =====
-- Writing and reading a payload are inverse to one another.
use mathlib.Core.List.{map-append}
use taskologic.Prelude.{
  ℕ, ◌≡◌, refl, ◌∙◌, some, true, false, List, [], ◌∷◌, ◌++◌, map, arith, inl, inr,
}
use taskologic.Prelude.Tests.{Option-cases}
use taskologic.Prelude.Lists.{All}
use taskologic.Prelude.Result.{ok}
use taskologic.Prelude.Text.{Text, trim, trim_self, is_whitespace, to_ascii_uppercase}
use taskologic.Ids.{base36_value}
use taskologic.Ids.ShortId
use taskologic.Ids.ShortId.{ShortId, IsDigit, IsShortId, digit}
use taskologic.Ids.ShortId.Laws.{six_chars, base36_char-digit, base36_value-digit}
use taskologic.Ids.ShortId.Parse.{parse-as_str, digit-upper}
use taskologic.Barcode.{
  ScanAction, start_pause, finish, yes_answer, no_answer, choice, finish_children, version_1,
  action_code, action_from_code, IsCodable, clamp_choice,
}
use taskologic.Barcode.Check.{check_char, verify_check}
use taskologic.Barcode.Check.{base36_values, check_value, checksum}
use taskologic.Barcode.Check.Laws.{
  base36_values-uncons, base36_values-cons, base36_values-append, check_value-lt,
}
use taskologic.Barcode.Check.Errors.{verify_check-check_char, check_char-values}
use taskologic.Barcode.Payload.{
  ScanPayload, body, encode, check_chars, parse_chars, parse, IsPayload,
}

-- Every action with a code of its own is read back from it, and its code is a digit.
pub action_from_code-action_code :
    (a : ScanAction) → IsCodable a → action_from_code (action_code a) ≡ some a
unfolding action_from_code action_code
action_from_code-action_code (choice n) h = ground arith
action_from_code-action_code start_pause h = refl
action_from_code-action_code _ h = refl

action_code-value : (a : ScanAction) → (v : ℕ) × (base36_value (action_code a) ≡ some v)
unfolding action_code base36_value
action_code-value (choice n) = (clamp_choice n, ground arith)
action_code-value start_pause = (28, refl)
action_code-value finish = (15, refl)
action_code-value yes_answer = (34, refl)
action_code-value no_answer = (23, refl)
action_code-value finish_children = (12, refl)

action_code-upper : (a : ScanAction) → to_ascii_uppercase (action_code a) ≡ action_code a
unfolding action_code to_ascii_uppercase
action_code-upper (choice n) = ground arith
action_code-upper start_pause = refl
action_code-upper _ = refl

-- The eleven characters of a payload, read.
module _ (k u v w x y z c : ℕ) where
  abbrev id_chars : Text
  id_chars = u ∷ v ∷ w ∷ x ∷ y ∷ z ∷ []

  abbrev checked : Text
  checked = version_1 ∷ k ∷ u ∷ v ∷ w ∷ x ∷ y ∷ z ∷ c ∷ []

  pub parse_chars-ok :
      (a : ScanAction) (id : ShortId)
      → check_chars checked ≡ ok tt
      → verify_check checked ≡ true
      → action_from_code k ≡ some a
      → ShortId.parse id_chars ≡ ok id
      → parse_chars (b'.' ∷ b'.' ∷ checked) ≡ ok (record { action = a; short_id = id })
  unfolding parse_chars
  parse_chars-ok a id p q r s = rw (p, q, r, s) refl

-- What an encoding is made of: the body and its check character.
pub encode-inv :
    (p : ScanPayload) (t : Text)
    → encode p ≡ some t
    → (c : ℕ) × (check_char (body p) ≡ some c) × (t ≡ b'.' ∷ b'.' ∷ body p ++ c ∷ [])
unfolding encode
encode-inv p t h = elim (Option-cases (check_char (body p))) [
  | inl e ↦ absurd (ground arith)
  | inr (c, e) ↦ (c, e, ground arith)
]

-- Texts of digits pass the character test, and stay as they are in upper case.
check_chars-values : (s : Text) (vs : List ℕ) → base36_values s ≡ some vs → check_chars s ≡ ok tt
check_chars-values [] vs h = refl
check_chars-values (c ∷ s) vs h =
    let (v, us, e, r, _) = base36_values-uncons c s vs h in
    ground (arith, e, check_chars-values s us r)

digits-values : (s : Text) → All IsDigit s → (vs : List ℕ) × (base36_values s ≡ some vs)
digits-values [] h = ([], unfold base36_values in refl)
digits-values (c ∷ s) ((v, e, d), h) =
    let (vs, r) = digits-values s h in (v ∷ vs, base36_values-cons c v s vs e r)

-- The body of a payload has values, so it has a check character, and the source does not panic.
body-values : (p : ScanPayload) → IsPayload p → (vs : List ℕ) × (base36_values (body p) ≡ some vs)
body-values p h =
    let (vs, e) = digits-values p.short_id.bytes h.id.digits in
    let (v, q) = action_code-value p.action in
    let code = base36_values-cons (action_code p.action) v (ShortId.as_str p.short_id) vs q e in
    (1 ∷ v ∷ vs, base36_values-cons version_1 1 _ (v ∷ vs) (unfold base36_value in refl) code)

digits-upper : (s : Text) → All IsDigit s → map to_ascii_uppercase s ≡ s
digits-upper [] h = refl
digits-upper (c ∷ s) ((v, e, d), h) = cc (digit-upper c v e, d, digits-upper s h)

-- No digit is a blank.
not-whitespace : (c v : ℕ) → base36_value c ≡ some v → is_whitespace c ≡ false
unfolding base36_value is_whitespace
not-whitespace c v h = ground arith

-- The characters of a payload, whatever its short id.
parse_chars-id :
    (k c : ℕ) (a : ScanAction) (id : ShortId)
    → IsShortId id
    → check_chars (version_1 ∷ k ∷ id.bytes ++ c ∷ []) ≡ ok tt
    → verify_check (version_1 ∷ k ∷ id.bytes ++ c ∷ []) ≡ true
    → action_from_code k ≡ some a
    → parse_chars (b'.' ∷ b'.' ∷ version_1 ∷ k ∷ id.bytes ++ c ∷ [])
      ≡ ok (record { action = a; short_id = id })
parse_chars-id k c a id h p q r =
    six_chars
      (λ s.
        check_chars (version_1 ∷ k ∷ s ++ c ∷ []) ≡ ok tt
        → verify_check (version_1 ∷ k ∷ s ++ c ∷ []) ≡ true
        → ShortId.parse s ≡ ok id
        → parse_chars (b'.' ∷ b'.' ∷ version_1 ∷ k ∷ s ++ c ∷ [])
          ≡ ok (record { action = a; short_id = id }))
      (λ u v w x y z _ p q e. parse_chars-ok k u v w x y z c a id p q r e) id.bytes h.six h.digits p
      q (parse-as_str id h)

pub encode-check :
    (p : ScanPayload) (c : ℕ)
    → check_char (body p) ≡ some c
    → encode p ≡ some (b'.' ∷ b'.' ∷ body p ++ c ∷ [])
unfolding encode
encode-check p c e = ground (arith, e)

pub parse-eq : (raw : Text) → parse raw ≡ parse_chars (map to_ascii_uppercase (trim raw))
unfolding parse
parse-eq raw = refl

payload-upper :
    (k c v : ℕ) (s : Text)
    → to_ascii_uppercase k ≡ k
    → base36_value c ≡ some v
    → digit v ≡ c
    → All IsDigit s
    → map to_ascii_uppercase (b'.' ∷ b'.' ∷ version_1 ∷ k ∷ s ++ c ∷ [])
      ≡ b'.' ∷ b'.' ∷ version_1 ∷ k ∷ s ++ c ∷ []
payload-upper k c v s hk e d h =
    let rest : map to_ascii_uppercase (s ++ c ∷ []) ≡ s ++ c ∷ [] =
      rw (map-append, digits-upper s h, ← digit-upper c v e, d) refl in
    unfold to_ascii_uppercase in (λ i. b'.' ∷ b'.' ∷ version_1 ∷ hk i ∷ rest i)

-- The encoding of a payload: it is there, needs no trimming and no upper case, and reads back.
pub encoding :
    (p : ScanPayload)
    → IsPayload p
    → (t : Text) × (encode p ≡ some t)
      × (trim t ≡ t)
      × (map to_ascii_uppercase t ≡ t)
      × (parse_chars t ≡ ok p)
encoding p h =
    let (vs, e) = body-values p h in
    let value = check_value (checksum vs) in
    let c = digit value in
    let check : check_char (body p) ≡ some c =
      check_char-values (body p) vs e ∙ base36_char-digit value (check_value-lt (checksum vs)) in
    let value_of : base36_value c ≡ some value =
      base36_value-digit value (check_value-lt (checksum vs)) in
    let t = b'.' ∷ b'.' ∷ body p ++ c ∷ [] in
    let all : base36_values (body p ++ c ∷ []) ≡ some (vs ++ value ∷ []) =
      base36_values-append (body p) (c ∷ []) vs (value ∷ []) e
        (base36_values-cons c value [] [] value_of (unfold base36_values in refl)) in
    let trimmed : trim t ≡ t =
      trim_self b'.' c (b'.' ∷ body p) (unfold is_whitespace in refl)
        (not-whitespace c value value_of) in
    let read : parse_chars t ≡ ok p =
      parse_chars-id (action_code p.action) c p.action p.short_id h.id
        (check_chars-values (body p ++ c ∷ []) (vs ++ value ∷ []) all)
        (verify_check-check_char (body p) c check)
        (action_from_code-action_code p.action h.codable) in
    let upper =
      payload-upper (action_code p.action) c value p.short_id.bytes (action_code-upper p.action)
        value_of refl h.id.digits in
    (t, encode-check p c check, trimmed, upper, read)

-- Every payload is encoded, and reading its text gives the payload back.
pub parse-encode :
    (p : ScanPayload) → IsPayload p → (t : Text) × (encode p ≡ some t) × (parse t ≡ ok p)
parse-encode p h =
    let (t, e, trimmed, upper, read) = encoding p h in (t, e, parse-eq t ∙ rw (trimmed, upper) read)
