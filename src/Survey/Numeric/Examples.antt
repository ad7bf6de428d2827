-- ===== src/Survey/Numeric/Examples.antt =====
-- Numbers from 1 to 2000, and "1,000".
use demolition_app.Base.{
  ℕ, ◌+◌, ◌-◌, ◌*◌, leb, ltb, ◌&&◌, if◌then◌else◌, ◌≡◌, refl, false, Option, none, some, [], ◌∷◌,
}
use demolition_app.Survey.TextField.{Text, is_blank, is_space}
use demolition_app.Survey.Numeric.{
  Bounds, accepts, warning, number_of, is_unfinished, strip, fault, fault_of_number, is_none,
  is_below, is_above,
}
use demolition_app.Survey.Numeric.Range.{warning-accepts}

-- Decimal digits only.
abbrev digits : ℕ → Text → Option ℕ
digits n [] = some n
digits n (c ∷ cs) =
    let rest = digits (n * 10 + (c - 48)) cs in if leb 48 c && leb c 57 then rest else none

abbrev number : Text → Option ℕ
number text = digits 0 text

abbrev bounds : Bounds ℕ
bounds = record { low = some 1; high = some 2000 }

warning-accepts_example :
    (warning ltb number bounds (49 ∷ 44 ∷ 48 ∷ 48 ∷ 48 ∷ []) ≡ none)
    × (accepts ltb number bounds (49 ∷ 44 ∷ 48 ∷ 48 ∷ 48 ∷ []) ≡ false)
unfolding accepts strip fault fault_of_number number_of is_blank is_space is_none is_below is_above
    is_unfinished
warning-accepts_example =
    warning-accepts ltb number bounds (49 ∷ []) (48 ∷ 48 ∷ 48 ∷ []) (refl, tt)
      (refl, (refl, (refl, tt))) refl refl
