-- ===== src/Tags/Layer/Examples.antt =====
-- Three events, one of them by a command.
use demolition_app.Base.{refl, false, none, some, List, [], ◌∷◌}
use demolition_app.Tags.Layer.{
  text_value, Object, text, date, Message, arguments, plain, Layer, run,
}
use demolition_app.Tags.Layer.Ids.{Below, run-IsNumbered}

abbrev layer : Layer
layer = record {
  values = [];
  model = none;
  next = 0;
  marks = λ k. none;
  fired = [];
  called = [];
  commands = [];
  start = none;
}

abbrev click : Object
click = record {
  clears = false;
  entries = ("page", text_value "/map") ∷ [];
  event = some (text_value "click");
  model = none;
  id = none;
  start = none;
}

abbrev messages : List Message
messages =
    arguments (text "js" ∷ date 5 ∷ [])
    ∷ plain 1 click
    ∷ arguments (text "set" ∷ text "team" ∷ text "red" ∷ [])
    ∷ arguments (text "event" ∷ text "open" ∷ [])
    ∷ []

run-IsNumbered_example : Below (run messages layer).next (run messages layer).fired
run-IsNumbered_example =
    run-IsNumbered [] messages layer
      ((tt, (tt, tt)), ((refl, refl), ((tt, (tt, (tt, tt))), ((tt, (tt, tt)), tt)))) (λ k _. refl)
      tt
