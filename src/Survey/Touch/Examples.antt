-- ===== src/Survey/Touch/Examples.antt =====
-- A tap on a field.
use demolition_app.Base.Int.{ℤ, pos}
use demolition_app.Base.{false, none, some, List, [], ◌∷◌}
use demolition_app.Survey.Touch.{Element, TouchState}

abbrev field : Element
field = record {
  name = 7;
  tag = "INPUT";
  type = "text";
  disabled = false;
  read_only = false;
  selection = some 3;
}

abbrev idle : TouchState
idle = record { touch = none; active = none; effects = [] }

abbrev trail : List (ℤ × ℤ)
trail = (pos 11, pos 20) ∷ (pos 10, pos 18) ∷ []
