-- ===== src/Survey/MultiSelect/Examples.antt =====
-- Clicks.
use demolition_app.Base.{
  ◌≡◌, refl, Bool, true, false, not, String, str_eq, none, some, List, [], ◌∷◌,
}
use demolition_app.Survey.MultiSelect.{Row, MultiSelect, row, none_of_the_above, hands_in}
use demolition_app.Survey.MultiSelect.Ready.{
  Input, click, spoken_click, run, is_chosen, IsReady, run-IsReady,
}

abbrev row_of : String → String → Row
row_of value index = record { value = value; index = index; checked = false; selected = false }

abbrev two_rows : MultiSelect
two_rows = record {
  modern = false;
  rows = row_of "Red" "0" ∷ row_of "Blue" "1" ∷ [];
  none_row = some (row_of "None of the above" "2");
  other = none;
  disabled = true;
  listening = false;
  last_spoken = 0;
}

abbrev accepts_text : Bool → String → Bool
accepts_text modern text = not (str_eq text "")

abbrev clicks : List Input
clicks = click true (row 0) ∷ spoken_click 1000 (row 1) ∷ click false none_of_the_above ∷ []

run-IsReady_example :
    IsReady accepts_text (run accepts_text clicks two_rows)
    × (hands_in (run accepts_text clicks two_rows)
        ≡ is_chosen accepts_text (run accepts_text clicks two_rows))
run-IsReady_example =
    run-IsReady accepts_text clicks two_rows
      (record { button = refl; hears = λ _. refl; alone = refl })
