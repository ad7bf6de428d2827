-- ===== src/Prompt/NumberFormat/Examples.antt =====
-- The pattern "#,##0.###" and a quoted text.
use demolition_app.Base.{ℕ, ◌≡◌, ◌≢◌, refl, false, some, List, [], ◌∷◌, arith}
use demolition_app.Prompt.NumberFormat.{
  Format, parse_pattern, scan, start, count_group, close_group, read_hash, read_zero, read_comma,
  read_point, read_unit, read_sign, read_exponent, adjust, adjust_at, is_malformed, format_of,
}
use demolition_app.Prompt.NumberFormat.Affixes.{Multiplier, Stops, is_special}

abbrev decimal : List ℕ
decimal = 35 ∷ 44 ∷ 35 ∷ 35 ∷ 48 ∷ 46 ∷ 35 ∷ 35 ∷ 35 ∷ []

abbrev decimal_format : Format
decimal_format = record {
  max_fraction = 3;
  min_fraction = 0;
  min_integer = 1;
  groups = 3 ∷ [];
  exponent = false;
  exponent_digits = 0;
  plus = false;
  always_point = false;
}

decimal-read : parse_pattern decimal ≡ some (decimal_format, [])
unfolding parse_pattern scan start count_group close_group read_hash read_zero read_comma read_point
    read_unit read_sign read_exponent adjust adjust_at is_malformed format_of
decimal-read = refl

abbrev plain : Multiplier
plain = record { factor = 1; inherited = false }

abbrev letter : ℕ
letter = 97

differs : letter ≢ 39
differs e = omega (arith, e)

digits-Stops : Stops (48 ∷ [])
unfolding Stops is_special
digits-Stops = refl
