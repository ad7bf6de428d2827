-- ===== src/Prompt/Selection/Examples.antt =====
-- A model of two items, of which the second is selected and removed after a third came.
use demolition_app.Base.{refl, false, none, [], ◌∷◌, arith}
use demolition_app.Base.Int.{pos}
use demolition_app.Prompt.Selection.{
  Selection, select_index, add_item_at, remove_item, contains, is_selected,
}
use demolition_app.Prompt.Selection.Marked.{Reaches, done, next, adds, removes, selects, IsMarked}

abbrev two_items : Selection
two_items = record { items = 7 ∷ 8 ∷ []; selected = none; marks = λ x. false; selects = 0 }

two_items-IsMarked : IsMarked two_items
unfolding contains is_selected
two_items-IsMarked = record {
  once = λ a. ground arith;
  held = λ a e. absurd (ground (arith, e));
  marked = λ a h. refl;
}

abbrev last_items : Selection
last_items = remove_item 8 (add_item_at 9 0 (select_index (pos 1) two_items))

two_items-last_items : Reaches two_items last_items
unfolding contains is_selected select_index
two_items-last_items = next (selects (pos 1)) (next (adds 9 0 refl refl) (next (removes 8) done))
