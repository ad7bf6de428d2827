-- ===== src/Tracker/Methods.antt =====
-- The methods of a tracker that read and set its fields, by their names, with the numbers that are kept of
-- the calls: `Re` and `Se`.
pub mod Access
mod Examples
use demolition_app.Base.{
  ℕ, ◌*◌, ◌==◌, Bool, true, false, not, ◌&&◌, ◌||◌, if◌then◌else◌, String, str_eq, Option, none,
  some, List, [], ◌∷◌,
}
use demolition_app.Tracker.FieldNames.{
  Field, code, Value, undefined, nan, text, number, flag, Conversion, to_text, to_number, to_flag,
  to_ms, as_is, Getter, Setter,
}
use demolition_app.Tracker.Tables.{getters, setters}

-- The fields, and the numbers of the calls that were made.
pub record Fields : Type 0 where
  pub values : ℕ → Value
  pub made : ℕ → Bool

-- `H`
unfoldable pub note : ℕ → Fields → Fields
note n t = record t { made = λ m. n == m || t.made m }

unfoldable pub put : Field → Value → Fields → Fields
unfolding code
put f v t = record t { values = λ i. if code f == i then v else t.values i }

unfoldable pub get : Field → Fields → Value
unfolding code
get f t = t.values (code f)

-- The method of a name, where there is one.
unfoldable pub find_setter : String → List Setter → Option Setter
find_setter wanted [] = none
find_setter wanted (s ∷ ss) =
    let rest = find_setter wanted ss in if str_eq s.method wanted then some s else rest

unfoldable pub find_getter : String → List Getter → Option Getter
find_getter wanted [] = none
find_getter wanted (g ∷ gs) =
    let rest = find_getter wanted gs in if str_eq g.method wanted then some g else rest

-- What the script makes of a number and of a text is its own.
module _ (print : ℕ → String) (read : String → Option ℕ) where
  unfoldable pub value_of_text : Value → Value
  value_of_text undefined = text "undefined"
  value_of_text nan = text "NaN"
  value_of_text (text s) = text s
  value_of_text (number n) = text (print n)
  value_of_text (flag true) = text "true"
  value_of_text (flag false) = text "false"

  unfoldable pub scaled : ℕ → Value → Value
  scaled k undefined = nan
  scaled k nan = nan
  scaled k (text s) = elim (read s) [ none ↦ nan | some n ↦ number (k * n) ]
  scaled k (number n) = number (k * n)
  scaled k (flag true) = number k
  scaled k (flag false) = number 0

  unfoldable pub flag_of : Value → Bool
  flag_of undefined = false
  flag_of nan = false
  flag_of (text s) = not (str_eq s "")
  flag_of (number n) = not (n == 0)
  flag_of (flag b) = b

  -- `Aa`
  unfoldable pub convert : Conversion → Value → Value
  unfolding value_of_text scaled flag_of
  convert to_text v = value_of_text v
  convert to_number v = scaled 1 v
  convert to_flag v = flag (flag_of v)
  convert to_ms v = scaled 1000 v
  convert as_is v = v

  -- `V`: the call is noted, and then the field is set.
  unfoldable pub set_by : Setter → Value → Fields → Fields
  unfolding note put convert
  set_by s v t =
      put s.field (elim s.fixed [ none ↦ convert s.conversion v | some n ↦ number n ])
        (note s.call t)

  -- `Qc`
  unfoldable pub get_by : Getter → Fields → Value × Fields
  unfolding note get convert
  get_by g t = let u = note g.call t in (convert g.conversion (get g.field u), u)

  -- A page calls a method by its name; it is an error when there is none.
  unfoldable pub set_found : Option Setter → Value → Fields → Option Fields
  unfolding set_by
  set_found none v t = none
  set_found (some s) v t = some (set_by s v t)

  unfoldable pub get_found : Option Getter → Fields → Option (Value × Fields)
  unfolding get_by
  get_found none t = none
  get_found (some g) t = some (get_by g t)

  unfoldable pub call_set : String → Value → Fields → Option Fields
  unfolding find_setter setters set_found
  call_set wanted v t = set_found (find_setter wanted setters) v t

  unfoldable pub call_get : String → Fields → Option (Value × Fields)
  unfolding find_getter getters get_found
  call_get wanted t = get_found (find_getter wanted getters) t
