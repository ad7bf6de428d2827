-- ===== src/Prompt/Autocomplete/Examples.antt =====
-- Rows of which one is disabled, and a highlight that is kept on too few rows.
use demolition_app.Base.{ℕ, ◌≡◌, ◌==◌, refl, Bool, true, false, some, none, List, [], ◌∷◌, arith}
use demolition_app.Prompt.Autocomplete.{
  Autocomplete, index_of_id, hilited_row, hilite_next, render_rows,
}
use demolition_app.Prompt.Autocomplete.Rows.{
  Input, next, selects, renders, hilites, render_rows-lost,
}

abbrev only_seven : ℕ → Bool
only_seven row = row == 7

abbrev inputs : List Input
inputs = renders (7 ∷ 8 ∷ 9 ∷ []) false none true ∷ next ∷ selects (some 1) ∷ hilites (some 40) ∷ []

abbrev three_rows : Autocomplete
three_rows = record {
  rows = 4 ∷ 5 ∷ 6 ∷ [];
  first_id = 0;
  hilited = some 2;
  token = true;
  dismissing = false;
  cancels = 0;
  auto_hilite = true;
  allow_free = false;
  wrap = false;
  again = false;
  updates = [];
}

third_row : index_of_id three_rows.hilited three_rows.first_id three_rows.rows ≡ some 2
unfolding index_of_id
third_row = refl

render_rows-lost_example :
    (hilited_row only_seven (render_rows only_seven (8 ∷ []) true none three_rows) ≡ none)
    × (hilite_next only_seven (render_rows only_seven (8 ∷ []) true none three_rows)
        ≡ render_rows only_seven (8 ∷ []) true none three_rows)
render_rows-lost_example =
    render_rows-lost only_seven (8 ∷ []) none three_rows 2 third_row (omega arith) (omega arith)
      refl
