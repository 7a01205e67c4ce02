-- ===== src/Ids/ShortId/Laws.antt =====
-- Numbers and short ids: `index` and `from_index` are inverse to one another.
use taskologic.Prelude.{
  ℕ, zero, suc, ◌*◌, ◌^◌, ◌/◌, ◌%◌, ◌<◌, ◌≡◌, refl, ap, ◌∙◌, Bool, true, false, none, some, [], ◌∷◌,
  foldl, arith,
}
use native.Mathlib.Nat.{mod-eq_of_lt}
use taskologic.Prelude.Tests.{◌==◌, check_below, check_below_sound}
use taskologic.Prelude.Lists.{length, All, by_elements}
use taskologic.Prelude.Text.{Text}
use taskologic.Ids.{base36_value, base36_char}
use taskologic.Ids.ShortId.{
  ShortId, len, space, digit, fill, from_index, index, add_digit, IsDigit, IsShortId,
}

-- Every digit reads back as its value.
digit_test : ℕ → Bool
digit_test v = elim (base36_value (digit v)) [ none ↦ false | some w ↦ w == v ]

digit_table : check_below digit_test 36 ≡ true
unfolding check_below digit_test base36_value digit
digit_table = refl

pub base36_value-digit : (v : ℕ) → v < 36 → base36_value (digit v) ≡ some v
base36_value-digit v h =
    let t : digit_test v ≡ true = check_below_sound digit_test 36 v h digit_table in
    unfold digit_test in ground (arith, t)

char_test : ℕ → Bool
char_test v = elim (base36_char v) [ none ↦ false | some c ↦ c == digit v ]

char_table : check_below char_test 36 ≡ true
unfolding check_below char_test base36_char digit
char_table = refl

pub base36_char-digit : (v : ℕ) → v < 36 → base36_char v ≡ some (digit v)
base36_char-digit v h =
    let t : char_test v ≡ true = check_below_sound char_test 36 v h char_table in
    unfold char_test in ground (arith, t)

pub base36_value-lt : (c v : ℕ) → base36_value c ≡ some v → v < 36
unfolding base36_value
base36_value-lt c v h = ground arith

pub digit-IsDigit : (v : ℕ) → v < 36 → IsDigit (digit v)
digit-IsDigit v h = (v, base36_value-digit v h, refl)

-- The loop writes digits only, whatever the number.
pub fill-digits : (slots n : ℕ) (out : Text) → All IsDigit out → All IsDigit (fill slots n out)
unfolding fill
fill-digits zero n out h = h
fill-digits (suc slots) n out h =
    fill-digits slots (n / 36) (digit (n % 36) ∷ out) (digit-IsDigit (n % 36) (omega arith), h)

-- `from_index` builds a short id.
pub from_index-IsShortId : (n : ℕ) → IsShortId (from_index n)
unfolding from_index
from_index-IsShortId n = record {
  six = unfold fill in refl;
  digits = fill-digits len (n % space) [] tt;
}

-- The number that the characters spell after `acc`.
abbrev spell : ℕ → Text → ℕ
spell = foldl add_digit

-- What the loop writes spells the number modulo 36 ^ slots, in front of what was there.
spell-fill_six : (n : ℕ) → n < space → spell 0 (fill len n []) ≡ n
unfolding fill
spell-fill_six n h =
    let d = λ (k : ℕ) (h : k < 36). base36_value-digit k h in
    rw
      (
        d (n / 36 / 36 / 36 / 36 / 36 % 36) (omega arith),
        d (n / 36 / 36 / 36 / 36 % 36) (omega arith),
        d (n / 36 / 36 / 36 % 36) (omega arith),
        d (n / 36 / 36 % 36) (omega arith),
        d (n / 36 % 36) (omega arith),
        d (n % 36) (omega arith),
      )
      (omega arith)

-- Reading back the id of any number gives the number modulo the number of ids.
pub index-from_index : (n : ℕ) → index (from_index n) ≡ n % space
unfolding index from_index
index-from_index n = spell-fill_six (n % space) (omega arith)

-- One character more, read back: its digit is written again, and the rest is the number before it.
digit-add_digit :
    (c acc : ℕ) → IsDigit c → (digit (add_digit acc c % 36) ≡ c) × (add_digit acc c / 36 ≡ acc)
digit-add_digit c acc (v, p, q) =
    let lt = base36_value-lt c v p in rw p (ap digit (omega arith) ∙ q, omega arith)

-- What six digits spell is below the number of ids.
spell_bound : (c acc k : ℕ) → IsDigit c → acc < k → add_digit acc c < k * 36
spell_bound c acc k (v, p, q) h = let lt = base36_value-lt c v p in rw p (omega arith)

module _ (u v w x y z : ℕ) (h : All IsDigit (u ∷ v ∷ w ∷ x ∷ y ∷ z ∷ [])) where
  abbrev six : Text
  six = u ∷ v ∷ w ∷ x ∷ y ∷ z ∷ []

  spell-six_lt : spell 0 six < space
  spell-six_lt =
      let (a, (b, (c, (d, (e, (f, _)))))) = h in
      let bound = spell_bound in
      bound z _ (36 ^ 5) f (
        bound y _ (36 ^ 4) e (
          bound x _ (36 ^ 3) d
            (bound w _ (36 ^ 2) c (bound v _ 36 b (bound u 0 1 a (omega arith))))))

  fill-spell : fill len (spell 0 six) [] ≡ six
  unfolding fill
  fill-spell =
      let (a, (b, (c, (d, (e, (f, _)))))) = h in
      let back = digit-add_digit in
      rw
        (
          (back z (spell 0 (u ∷ v ∷ w ∷ x ∷ y ∷ [])) f).0,
          (back z (spell 0 (u ∷ v ∷ w ∷ x ∷ y ∷ [])) f).1,
          (back y (spell 0 (u ∷ v ∷ w ∷ x ∷ [])) e).0,
          (back y (spell 0 (u ∷ v ∷ w ∷ x ∷ [])) e).1,
          (back x (spell 0 (u ∷ v ∷ w ∷ [])) d).0,
          (back x (spell 0 (u ∷ v ∷ w ∷ [])) d).1,
          (back w (spell 0 (u ∷ v ∷ [])) c).0,
          (back w (spell 0 (u ∷ v ∷ [])) c).1,
          (back v (spell 0 (u ∷ [])) b).0,
          (back v (spell 0 (u ∷ [])) b).1,
          (back u 0 a).0,
        )
        refl

  from_index-six : from_index (index (record { bytes = six })) ≡ record { bytes = six }
  unfolding from_index index
  from_index-six =
      ap (λ s. record { bytes = s })
        (ap (λ n. fill len n []) (mod-eq_of_lt spell-six_lt) ∙ fill-spell)

-- A statement about every text of six digits, from the six.
pub six_chars :
    (P : Text → Type 0)
    → ((u v w x y z : ℕ)
        → All IsDigit (u ∷ v ∷ w ∷ x ∷ y ∷ z ∷ [])
        → P (u ∷ v ∷ w ∷ x ∷ y ∷ z ∷ []))
    → (s : Text) → length s ≡ 6
    → All IsDigit s
    → P s
six_chars P f s n h = by_elements 6 (λ t. All IsDigit t → P t) f s n h

-- The number of a short id gives the short id back.
pub from_index-index : (id : ShortId) → IsShortId id → from_index (index id) ≡ id
from_index-index id h =
    six_chars (λ s. from_index (index (record { bytes = s })) ≡ record { bytes = s }) from_index-six
      id.bytes h.six h.digits

-- The number of a short id is below the number of ids, which is far below 2 ^ 64.
pub index-lt-space : (id : ShortId) → IsShortId id → index id < space
unfolding index
index-lt-space id h = six_chars (λ s. spell 0 s < space) spell-six_lt id.bytes h.six h.digits
