-- ===== src/Prompt/Select/Examples.antt =====
-- A button with two items.
use demolition_app.Base.{ℕ, ◌+◌, ◌≡◌, refl, false, some, none, List, [], ◌∷◌}
use demolition_app.Base.Int.{pos}
use demolition_app.Prompt.Selection.{Selection}
use demolition_app.Prompt.Select.{Select, find_value, target}
use demolition_app.Prompt.Select.Caption.{Input, adds, adds_at, removes, indexes, acts}

abbrev inputs : List Input
inputs = adds 7 ∷ adds_at 8 0 ∷ indexes (pos 1) ∷ acts 8 ∷ removes 8 ∷ []

abbrev model : Selection
model = record { items = 7 ∷ 8 ∷ []; selected = none; marks = λ x. false; selects = 0 }

abbrev two_items : Select
two_items = record { model = some model; caption = none; changes = 0; actions = 0 }

abbrev value : ℕ → ℕ
value x = x + 10

eight-found : target value (some 18) two_items.model ≡ some 8
unfolding target find_value
eight-found = refl
