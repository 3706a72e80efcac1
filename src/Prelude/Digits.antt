-- ===== src/Prelude/Digits.antt =====
-- Texts of decimal digits: the regular expression `^\d+(\.\d+)?$`.
use Prim.Native.Char.{code}
use orvex.Prelude.{ℕ, String, Bool, true, false, ◌&&◌, ◌||◌, List, [], ◌∷◌, ◌==◌, leb}

abbrev pub codes : String → List ℕ
codes String.[] = []
codes (String.◌∷◌ c s) = code c ∷ codes s

abbrev pub is_digit : ℕ → Bool
is_digit c = leb b'0' c && leb c b'9'

-- What may follow in a run of digits: the end, a digit, or a point that a digit follows.
abbrev pub fraction_digits : List ℕ → Bool
fraction_digits [] = true
fraction_digits (c ∷ cs) = is_digit c && fraction_digits cs

abbrev pub some_fraction : List ℕ → Bool
some_fraction [] = false
some_fraction (c ∷ cs) = is_digit c && fraction_digits cs

abbrev pub more_digits : List ℕ → Bool
more_digits [] = true
more_digits (c ∷ cs) = (is_digit c && more_digits cs) || (c == b'.' && some_fraction cs)

abbrev pub is_decimal_codes : List ℕ → Bool
is_decimal_codes [] = false
is_decimal_codes (c ∷ cs) = is_digit c && more_digits cs

abbrev pub is_decimal_text : String → Bool
is_decimal_text s = is_decimal_codes (codes s)
