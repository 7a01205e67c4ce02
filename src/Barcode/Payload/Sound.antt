-- ===== src/Barcode/Payload/Sound.antt =====
-- What `parse` accepts: the encodings of payloads, and nothing else.
use mathlib.Core.Option
use taskologic.Prelude.{
  ℕ, ◌≡◌, ◌↔◌, refl, ap, sym, ◌∙◌, subst, some, true, [], ◌∷◌, ◌++◌, map, arith,
}
use taskologic.Prelude.Lists.{length, take, drop, get_elem?, by_elements}
use taskologic.Prelude.Result.{ok}
use taskologic.Prelude.Text.{Text, trim, to_ascii_uppercase}
use taskologic.Ids.ShortId
use taskologic.Ids.ShortId.{ShortId, IsDigit, IsShortId, digit}
use taskologic.Barcode.{
  ScanAction, start_pause, choice, version_1, action_code, action_from_code, IsCodable,
}
use taskologic.Ids.ShortId.Parse.{parse_iff, parse-IsShortId}
use taskologic.Barcode.Check.{check_char, verify_check}
use taskologic.Barcode.Check.Errors.{check_char_unique}
use taskologic.Barcode.Payload.Laws.{encode-check, encoding, parse-eq}
use taskologic.Barcode.Payload.{
  ScanPayload, body, encode, check_chars, has_magic, parse_chars, parse, IsPayload,
}

-- What `parse` has found out about the characters when it returns a payload.
record Read (chars : Text) (p : ScanPayload) : Type 0 where
  magic : has_magic chars ≡ true
  version : get_elem? chars 2 ≡ some version_1
  size : length chars ≡ 11
  digits : check_chars (drop 2 chars) ≡ ok tt
  check : verify_check (drop 2 chars) ≡ true
  code : Option.map action_from_code (get_elem? chars 3) ≡ some (some p.action)
  id : ShortId.parse (take 6 (drop 4 chars)) ≡ ok p.short_id

parse_chars-Read : (chars : Text) (p : ScanPayload) → parse_chars chars ≡ ok p → Read chars p
unfolding parse_chars
parse_chars-Read chars p h = ground arith

upper_idem :
    (t : Text) → map to_ascii_uppercase (map to_ascii_uppercase t) ≡ map to_ascii_uppercase t
upper_idem [] = refl
upper_idem (c ∷ t) =
    let one : to_ascii_uppercase (to_ascii_uppercase c) ≡ to_ascii_uppercase c =
      unfold to_ascii_uppercase in ground arith in
    cc (one, upper_idem t)

-- An action is read from its own code alone, in upper case.
action_code-action_from_code :
    (k : ℕ) (a : ScanAction)
    → to_ascii_uppercase k ≡ k
    → action_from_code k ≡ some a
    → (action_code a ≡ k) × IsCodable a
unfolding action_code action_from_code
action_code-action_from_code k (choice n) u h = ground arith
action_code-action_from_code k start_pause u h = ground arith
action_code-action_from_code k _ u h = ground arith

has_magic-two : (a b : ℕ) (s : Text) → has_magic (a ∷ b ∷ s) ≡ true → a ∷ b ∷ [] ≡ b'.' ∷ b'.' ∷ []
unfolding has_magic
has_magic-two a b s h = ground arith

-- The characters of a payload that `parse` accepts, one by one.
Read-shape :
    (a b d k u v w x y z c : ℕ) (p : ScanPayload)
    → let chars = a ∷ b ∷ d ∷ k ∷ u ∷ v ∷ w ∷ x ∷ y ∷ z ∷ c ∷ [] in
      map to_ascii_uppercase chars ≡ chars → Read chars p → IsPayload p × (encode p ≡ some chars)
Read-shape a b d k u v w x y z c p up r =
    let id = u ∷ v ∷ w ∷ x ∷ y ∷ z ∷ [] in
    let (code, codable) = action_code-action_from_code k p.action (cc) (cc) in
    let (n, digits, e) = (parse_iff id p.short_id).0 r.id in
    let upper : map to_ascii_uppercase id ≡ id = cc in
    let bytes : p.short_id.bytes ≡ id = ap (λ (i : ShortId). i.bytes) e ∙ upper in
    let same : d ∷ k ∷ id ≡ body p = cc in
    let check : check_char (body p) ≡ some c =
      subst (λ s. check_char s ≡ some c) same (check_char_unique (d ∷ k ∷ id) c (cc) r.check) in
    let dots : a ∷ b ∷ [] ≡ b'.' ∷ b'.' ∷ [] = has_magic-two a b _ r.magic in
    (
      record { id = parse-IsShortId id p.short_id r.id; codable = codable },
      encode-check p c check
          ∙ ap (λ s. some (b'.' ∷ b'.' ∷ s ++ c ∷ [])) (sym same)
          ∙ ap (λ s. some (s ++ d ∷ k ∷ id ++ c ∷ [])) (sym dots),
    )

parse_chars_sound :
    (chars : Text) (p : ScanPayload)
    → map to_ascii_uppercase chars ≡ chars
    → Read chars p
    → IsPayload p × (encode p ≡ some chars)
parse_chars_sound chars p up r =
    by_elements 11
      (λ s. map to_ascii_uppercase s ≡ s → Read s p → IsPayload p × (encode p ≡ some s))
      (λ a b d k u v w x y z c. Read-shape a b d k u v w x y z c p) chars r.size up r

-- `parse` accepts exactly the texts that are, up to blanks around them and to case, the encoding of
-- a payload, and returns that payload.
pub parse_iff_encode :
    (raw : Text) (p : ScanPayload)
    → (parse raw ≡ ok p) ↔ (IsPayload p × (encode p ≡ some (map to_ascii_uppercase (trim raw))))
parse_iff_encode raw p =
    let chars = map to_ascii_uppercase (trim raw) in
    (
      λ h.
          parse_chars_sound chars p (upper_idem (trim raw))
            (parse_chars-Read chars p (sym (parse-eq raw) ∙ h)),
      λ (valid, e).
          let (t, encoded, _, _, read) = encoding p valid in
          let same : t ≡ chars = cc in parse-eq raw ∙ subst (λ s. parse_chars s ≡ ok p) same read,
    )
