-- ===== src/Prompt/Ratings/Examples.antt =====
-- A rating that is given with the pointer and the keys.
use demolition_app.Base.{false, List, some, [], ◌∷◌}
use demolition_app.Base.Int.{pos}
use demolition_app.Prompt.Ratings.Shown.{
  Input, mouse_over, mouse_out, click, key_down, call_set_index,
}

abbrev inputs : List Input
inputs =
    mouse_over (some 2)
    ∷ click (some 2)
    ∷ mouse_out (some false)
    ∷ key_down 39
    ∷ call_set_index (pos 9)
    ∷ []
