-- ===== src/Stats/Duration.antt =====
-- stats.rs: a duration as it stands in a table cell, and how wide it is.
use taskologic.Prelude.{
  ℕ, suc, ◌+◌, ◌*◌, ◌/◌, ◌%◌, ◌^◌, ◌≤◌, ◌<◌, ◌≡◌, ◌↔◌, ◌⊎◌, inl, inr, true, [], ◌∷◌, ◌++◌, arith,
}
use taskologic.Prelude.Tests.{leb, ltb, if◌then◌else◌, if-split}
use taskologic.Prelude.Lists.{length, length-append}
use taskologic.Prelude.Int.{pos_part}
use taskologic.Prelude.Text.{Text}
use taskologic.Prelude.Strings.{decimal_loop}
use taskologic.Prelude.Decimal.{length-decimal_loop_le, length-decimal_loop_gt}
use taskologic.Time.{TimeDelta}

-- `{}` and `{:02}` of an i64 that is not negative: it has nineteen digits at most.
abbrev pub shown : ℕ → Text
shown n = decimal_loop 19 n []

abbrev pub padded : ℕ → Text
padded n = if ltb n 10 then b'0' ∷ shown n else shown n

-- `num_seconds().max(0)`
abbrev pub seconds : TimeDelta → ℕ
seconds d = pos_part d / 10 ^ 9

-- `format_duration` from the seconds on
unfoldable pub format_seconds : ℕ → Text
unfolding decimal_loop
format_seconds secs =
    let h = secs / 3600 in
    let m = secs % 3600 / 60 in
    let s = secs % 60 in
    if leb 100 h
    then if leb 100 (h / 24)
      then shown (h / 24) ++ b'd' ∷ []
      else (shown (h / 24) ++ b'd' ∷ b' ' ∷ []) ++ (padded (h % 24) ++ b'h' ∷ [])
    else if ltb 0 h
    then (shown h ++ b'h' ∷ b' ' ∷ []) ++ (padded m ++ b'm' ∷ [])
    else if ltb 0 m
    then (shown m ++ b'm' ∷ b' ' ∷ []) ++ (padded s ++ b's' ∷ [])
    else shown s ++ b's' ∷ []

unfoldable pub format_duration : TimeDelta → Text
unfolding format_seconds
format_duration d = format_seconds (seconds d)

length-shown_le : (k n : ℕ) → k ≤ 18 → n < 10 ^ suc k → length (shown n) ≤ suc k
length-shown_le k n h l = omega (arith, length-decimal_loop_le 18 k n [] h l)

length-padded : (n : ℕ) → n < 100 → length (padded n) ≤ 2
length-padded n h = ground (arith, length-shown_le 0 n, length-shown_le 1 n)

-- Two numbers below 100 and their units.
two_units :
    (a b u v : ℕ)
    → a < 100
    → b < 100
    → length ((shown a ++ u ∷ b' ' ∷ []) ++ (padded b ++ v ∷ [])) ≤ 7
two_units a b u v h k = omega (
  arith,
  length-append (shown a ++ u ∷ b' ' ∷ []) (padded b ++ v ∷ []),
  length-append (shown a) (u ∷ b' ' ∷ []),
  length-append (padded b) (v ∷ []),
  length-shown_le 1 a (omega arith) (omega arith),
  length-padded b k,
)

one_unit : (a u k : ℕ) → k ≤ 18 → a < 10 ^ suc k → length (shown a ++ u ∷ []) ≤ suc k + 1
one_unit a u k h l = omega (arith, length-append (shown a) (u ∷ []), length-shown_le k a h l)

narrow : (secs : ℕ) → secs < 10 ^ 6 * 86400 → length (format_seconds secs) ≤ 7
unfolding format_seconds
narrow secs l =
    let Short : Text → Type 0 = λ t. length t ≤ 7 in
    let h = secs / 3600 in
    let m = secs % 3600 / 60 in
    if-split (leb 100 h) Short
      (λ a.
        if-split (leb 100 (h / 24)) Short
          (λ b. omega (arith, one_unit (h / 24) b'd' 5 (omega arith) (omega arith)))
          (λ b. two_units (h / 24) (h % 24) b'd' b'h' (ground arith) (omega arith)))
      (λ a.
        if-split (ltb 0 h) Short (λ b. two_units h m b'h' b'm' (ground arith) (omega arith))
          (λ b.
            if-split (ltb 0 m) Short
              (λ c. two_units m (secs % 60) b'm' b's' (omega arith) (omega arith))
              (λ c. omega (arith, one_unit (secs % 60) b's' 1 (omega arith) (omega arith)))))

wide : (secs : ℕ) → 10 ^ 6 * 86400 ≤ secs → 8 ≤ length (format_seconds secs)
unfolding format_seconds
wide secs l =
    let days = secs / 3600 / 24 in
    let a : leb 100 (secs / 3600) ≡ true = ground arith in
    let b : leb 100 days ≡ true = ground arith in
    rw (format_seconds, a, b)
      (omega (
        arith,
        length-append (shown days) (b'd' ∷ []),
        length-decimal_loop_gt 18 6 days [] (omega arith) (omega arith),
      ))

-- A duration takes at most the seven characters of its column exactly when it is shorter than a
-- million days.
pub length-format_duration_iff :
    (d : TimeDelta) → (length (format_duration d) ≤ 7) ↔ (seconds d < 10 ^ 6 * 86400)
unfolding format_duration
length-format_duration_iff d = (λ k. not_wide (seconds d) k, λ l. narrow (seconds d) l)
  where
    below_or_not : (a b : ℕ) → (a < b) ⊎ (b ≤ a)
    below_or_not a b = ground arith

    not_wide : (secs : ℕ) → length (format_seconds secs) ≤ 7 → secs < 10 ^ 6 * 86400
    not_wide secs k = elim (below_or_not secs (10 ^ 6 * 86400)) [
      | inl l ↦ l
      | inr m ↦ absurd (omega (arith, wide secs m))
    ]
