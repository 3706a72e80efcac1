-- ===== src/Chain/Tests.antt =====
-- Amounts of a token with six decimals.
use orvex.Prelude.{some, none, ◌≡◌, refl, [], ◌∷◌}
use orvex.Chain.Numerals.{show}
use orvex.Chain.Money.{to_base_units, from_base_units, to_base_units-from_base_units}

-- 5250000 units are written 5.25.
written : from_base_units 5250000 6 ≡ b'5' ∷ b'.' ∷ b'2' ∷ b'5' ∷ []
unfolding from_base_units show
written = refl

-- Two digits after the point are too many for one decimal.
too_fine : to_base_units (b'1' ∷ b'.' ∷ b'2' ∷ b'5' ∷ []) 1 ≡ none
unfolding to_base_units
too_fine = refl

to_base_units-from_base_units_example : to_base_units (from_base_units 5250000 6) 6 ≡ some 5250000
to_base_units-from_base_units_example = to_base_units-from_base_units 5250000 6
