-- ===== src/Prompt/Aria/Examples.antt =====
-- An ARIA state that is set and read.
use demolition_app.Base.{◌≡◌, refl, String, some, [], ◌∷◌}
use demolition_app.Base.Dict.{Dict}
use demolition_app.Prompt.Aria.{states, attribute_name, contains_value}

busy : attribute_name "busy" ≡ some "aria-busy"
unfolding attribute_name contains_value states
busy = refl

abbrev element : Dict String
element = ("role", "button") ∷ []
