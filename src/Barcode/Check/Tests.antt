-- ===== src/Barcode/Check/Tests.antt =====
-- Runs of the check character, and its laws at concrete texts.
use taskologic.Prelude.{◌≡◌, ◌↔◌, refl, some, true, false, inl, arith}
use taskologic.Prelude.Text.{text}
use taskologic.Ids.{base36_value, base36_char}
use taskologic.Barcode.Check.{base36_values, checksum, checksum_step, check_char, verify_check}
use taskologic.Barcode.Check.Errors.{verify_check-check_char, substitution_caught}
use taskologic.Barcode.Check.Swap.{Confuses, transposition_missed_iff}

k4_check : check_char (text "1SK4M9Q2") ≡ some b'J'
unfolding check_char base36_values base36_value base36_char checksum checksum_step
k4_check = refl

k4_checked : verify_check (text "1SK4M9Q2J") ≡ true
k4_checked = verify_check-check_char (text "1SK4M9Q2") b'J' k4_check

substitution_caught_example : verify_check (text "1FK4M9Q2J") ≡ false
unfolding base36_value
substitution_caught_example =
    substitution_caught (text "1") (text "K4M9Q2J") b'S' b'F' (λ e. ground arith) k4_checked

jk_verifies : verify_check (text "1S0000JKY") ≡ true
unfolding verify_check base36_values base36_value checksum checksum_step
jk_verifies = refl

-- Two payloads that differ by one adjacent transposition, both with a correct check character.
transposition_missed_iff_example :
    (verify_check (text "1S0000KJY") ≡ true) ↔ Confuses (text "1S0000") b'J' b'K'
unfolding base36_value
transposition_missed_iff_example =
    transposition_missed_iff (text "1S0000") (text "Y") b'J' b'K' (λ e. ground arith) jk_verifies

kj_verifies : verify_check (text "1S0000KJY") ≡ true
unfolding base36_values base36_value checksum checksum_step
kj_verifies =
    (transposition_missed_iff (text "1S0000") (text "Y") b'J' b'K' (λ e. ground arith)
        jk_verifies).1
      (inl (refl, refl))
