-- ===== src/Prompt/Select.antt =====
-- The button `pp`, whose menu selects one of its items: a selection model, and the caption that
-- shows what is selected.
pub mod Caption
mod Examples
use demolition_app.Base.{
  ℕ, suc, ◌==◌, Bool, true, false, not, Option, some, none, List, [], ◌∷◌, if◌then◌else◌,
}
use demolition_app.Base.Int.{ℤ, negsuc}
use demolition_app.Prompt.Selection.{
  Selection, is_selected, contains, item_at, add_item, add_item_at, remove_item, select_item,
  selected_index, new_selection,
}

-- `ea`, the item whose caption is shown, none for `tj`, and the numbers of "change" and "action"
-- events that were dispatched.
pub record Select : Type 0 where
  pub model : Option Selection
  pub caption : Option ℕ
  pub changes : ℕ
  pub actions : ℕ

-- `cd` and `fc`
pub selected_of : Option Selection → Option ℕ
selected_of none = none
selected_of (some m) = m.selected

pub selected_item : Select → Option ℕ
unfolding selected_of
selected_item s = selected_of s.model

pub index : Select → ℤ
index s = elim s.model [ none ↦ negsuc 0 | some m ↦ selected_index m ]

-- `Br`, when the model tells of "select", with `qp`.
pub on_select : Select → Select
unfolding selected_item
on_select s = record s { caption = selected_item s }

-- `ve`, for the model.
pub set_in : Option Selection → Option ℕ → Select → Select
unfolding on_select selected_of
set_in none a s = s
set_in (some m) a s =
    let told = on_select (record s { model = some (select_item a m) }) in
    if is_selected a m.selected then told else record told { changes = suc told.changes }

-- `ve`
pub set_selected : Option ℕ → Select → Select
unfolding set_in
set_selected a s = set_in s.model a s

-- `Rj`: an item of the menu was chosen.
pub on_action : ℕ → Select → Select
unfolding set_selected
on_action a s₀ = let s = set_selected (some a) s₀ in record s { actions = suc s.actions }

-- `wb`
pub item_of : ℤ → Option Selection → Option ℕ
item_of i none = none
item_of i (some m) = item_at i m

pub set_index : ℤ → Select → Select
unfolding set_selected item_of
set_index i s = set_selected (item_of i s.model) s

-- `Gd` and `Ge`; the first item makes the model (`tp`), where it is told that it is not selected.
pub add_to_model : ℕ → Option Selection → Option Selection
add_to_model a none = some (new_selection (a ∷ []) (λ x. false))
add_to_model a (some m) = some (add_item a m)

pub add : ℕ → Select → Select
unfolding add_to_model
add a s = record s { model = add_to_model a s.model }

pub add_at_to_model : ℕ → ℕ → Option Selection → Option Selection
add_at_to_model a b none = some (new_selection (a ∷ []) (λ x. false))
add_at_to_model a b (some m) = some (add_item_at a b m)

pub add_at : ℕ → ℕ → Select → Select
unfolding add_at_to_model
add_at a b s = record s { model = add_at_to_model a b s.model }

-- `removeItem`; the model tells of "select" when the item was the selected one.
pub remove_in : Option Selection → ℕ → Select → Select
unfolding on_select selected_of
remove_in none a s = s
remove_in (some m) a s₀ =
    let s = record s₀ { model = some (remove_item a m) } in
    if (if contains a m.items then is_selected (some a) m.selected else false)
    then on_select s
    else s

pub remove : ℕ → Select → Select
unfolding remove_in
remove a s = remove_in s.model a s

-- The value `aa` of an item is a parameter.
module _ (value : ℕ → ℕ) where
  -- The loop of `Pa`.
  pub find_value : ℕ → List ℕ → Option ℕ
  find_value v [] = none
  find_value v (x ∷ xs) = if value x == v then some x else find_value v xs

  -- `Pa`, with none for null.
  pub target : Option ℕ → Option Selection → Option ℕ
  unfolding find_value
  target none m = none
  target (some v) none = none
  target (some v) (some m) = find_value v m.items

  pub set_value : Option ℕ → Select → Select
  unfolding target set_selected
  set_value v s = set_selected (target v s.model) s

  -- `aa`
  pub get_value : Select → Option ℕ
  unfolding selected_item
  get_value s = elim (selected_item s) [ none ↦ none | some x ↦ some (value x) ]
