-- ===== src/Client/Tests.antt =====
-- Values and overflow.
use taskologic.Prelude.{◌≡◌, refl, some, [], ◌∷◌}
use taskologic.Prelude.Result.{ok}
use taskologic.Control.{plus, hours, years}
use taskologic.Client.{values_minutes}

two_hours : values_minutes (plus 2 hours ∷ []) ≡ ok (some 120)
unfolding values_minutes
two_hours = refl

-- Ten thousand years are less than their minutes modulo 2 ^ 32 say.
wrapped : values_minutes (plus 10000 years ∷ []) ≡ ok (some 961032704)
unfolding values_minutes
wrapped = refl
