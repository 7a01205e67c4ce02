-- ===== src/Client/Waits.antt =====
-- control.rs of the client: commands that wait are used once, values are split once, and when minutes wrap.
use taskologic.Prelude.{
  ℕ, ◌*◌, ◌%◌, ◌^◌, ◌<◌, ◌≡◌, ◌↔◌, refl, ap, none, some, Bool, true, false, List, [], ◌∷◌, ◌++◌,
  arith,
}
use taskologic.Prelude.Lists.{All}
use taskologic.Prelude.Result.{ok}
use taskologic.Control.{Value, plus, split_dates, OffsetUnit}
use taskologic.Client.{
  Armed, ControlState, use_armed, unit_minutes, minutes_loop, values_minutes, cut_split,
  unless_none, split_values,
}

-- An armed command that is not sticky is used once: the next use finds nothing armed, whenever it comes.
pub use_armed-use_armed :
    (s : ControlState) (a : Armed) (now_ms later_ms : ℕ)
    → s.armed ≡ some a
    → a.sticky ≡ false
    → ((use_armed s now_ms).1 ≡ some a) × ((use_armed (use_armed s now_ms).0 later_ms).1 ≡ none)
unfolding use_armed
use_armed-use_armed s a now_ms later_ms e n = (rw e refl, rw (e, n) refl)

abbrev is_split : Value → Bool
is_split split_dates = true
is_split _ = false

cut_split-append :
    (a b : List Value)
    → All (λ v. is_split v ≡ false) a
    → cut_split (a ++ split_dates ∷ b) ≡ some (a, b)
unfolding cut_split
cut_split-append [] b h = refl
cut_split-append (split_dates ∷ a) b (h, hs) = cc
cut_split-append (v ∷ a) b (h, hs) = rw (cut_split-append a b hs) refl

-- What stands before the first split goes to the start date and what follows it to the due date; a
-- side with no values is left alone.
pub split_values-append :
    (a b : List Value)
    → All (λ v. is_split v ≡ false) a
    → split_values (a ++ split_dates ∷ b) ≡ (unless_none a, unless_none b)
unfolding split_values
split_values-append a b h = rw (split_values, cut_split-append a b h) refl

-- A lead time is what its offset says exactly when its minutes fit a u32; from there on it wraps.
pub values_minutes-plus_iff :
    (n : ℕ) (u : OffsetUnit)
    → (values_minutes (plus n u ∷ []) ≡ ok (some (n * unit_minutes u)))
      ↔ (n * unit_minutes u < 2 ^ 32)
unfolding values_minutes minutes_loop
values_minutes-plus_iff n u =
    (λ e. small (n * unit_minutes u) (cc), λ l. ap (λ m. ok (some m)) (same (n * unit_minutes u) l))
  where
    small : (m : ℕ) → m % 2 ^ 32 ≡ m → m < 2 ^ 32
    small m e = omega (arith, e)

    same : (m : ℕ) → m < 2 ^ 32 → m % 2 ^ 32 ≡ m
    same m l = omega arith
