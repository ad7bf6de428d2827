-- ===== src/Survey/Numeric.antt =====
-- The question `Ls` for a number: which texts it accepts, and which it warns of.
pub mod Range
mod Examples
use demolition_app.Base.{
  ℕ, ◌==◌, Bool, true, false, not, ◌&&◌, ◌||◌, if◌then◌else◌, Option, none, some, List, [], ◌∷◌,
}
use demolition_app.Survey.TextField.{Text, is_blank}

-- `Ms`, and the text "empty" that `Ns` answers.
pub data Fault : Type 0 where
  empty not_numeric below_range above_range : Fault

-- `prefix` and `Ad`, from the units and their position.
pub data Position : Type 0 where
  missing before after elsewhere : Position

pub affixes : Text → Position → Text × Text
affixes [] position = ([], [])
affixes (c ∷ units) missing = ([], [])
affixes (c ∷ units) before = (c ∷ units, [])
affixes (c ∷ units) after = ([], c ∷ units)
affixes (c ∷ units) elsewhere = ([], [])

-- `qm`: without dollar signs and commas.
pub strip : Text → Text
strip [] = []
strip (c ∷ cs) = let rest = strip cs in if c == 36 || c == 44 then rest else c ∷ rest

-- The empty text, and the text "-".
pub is_unfinished : Text → Bool
is_unfinished [] = true
is_unfinished (c ∷ []) = c == 45
is_unfinished (c ∷ d ∷ cs) = false

-- `Yh` and `Uh`
pub record Bounds {ℓ} (N : Type ℓ) : Type ℓ where
  pub low : Option N
  pub high : Option N

pub is_none : Option Fault → Bool
is_none none = true
is_none (some f) = false

-- What `Number` makes of a text, and how its results compare, are parameters: the function `number`
-- gives none for what is not a number.
module _ {ℓ} {N : Type ℓ} (less : N → N → Bool) (number : Text → Option N) where
  pub is_below : N → Option N → Bool
  is_below n none = false
  is_below n (some low) = less n low

  pub is_above : N → Option N → Bool
  is_above n none = false
  is_above n (some high) = less high n

  pub fault_of_number : Bounds N → Option N → Option Fault
  unfolding is_below is_above
  fault_of_number b none = some not_numeric
  fault_of_number b (some n) =
      if is_below n b.low
      then some below_range
      else if is_above n b.high
      then some above_range
      else none

  -- A blank text is no number, though `Number` makes 0 of it.
  pub number_of : Text → Option N
  number_of text = if is_blank text then none else number text

  -- `Ns`
  pub fault : Bounds N → Text → Option Fault
  unfolding is_unfinished number_of fault_of_number
  fault b text = if is_unfinished text then some empty else fault_of_number b (number_of text)

  -- `eg`, of the text as it stands in the field.
  pub accepts : Bounds N → Text → Bool
  unfolding fault is_none
  accepts b text = is_none (fault b text)

  -- `Rk`: the fault that is shown, of the text without dollar signs and commas.
  pub warning : Bounds N → Text → Option Fault
  unfolding fault strip
  warning b text = fault b (strip text)
