-- ===== src/Prompt/Select/Caption.antt =====
-- The caption is that of the selected item.
use demolition_app.Base.{
  ℕ, ◌≡◌, refl, sym, ap, subst, ==_iff, Bool-cases, ◌∙◌, true, false, Option, some, none, List, [],
  ◌∷◌, ◌==◌, if◌then◌else◌, if_elim, if_cases, inl, inr, arith,
}
use demolition_app.Base.Int.{ℤ}
use demolition_app.Prompt.Selection.{Selection, is_selected, contains}
use demolition_app.Prompt.Selection.Marked.{
  select_item-selected, remove_item-selected, add_item_at-selected, add_item-selected,
  new_selection-selected,
}
use demolition_app.Prompt.Select.{
  Select, selected_of, selected_item, on_select, set_in, set_selected, item_of, add_to_model,
  add_at_to_model, remove_in, on_action, set_index, add, add_at, remove, find_value, target,
  set_value, get_value,
}

pub data Input : Type 0 where
  selects : Option ℕ → Input
  acts adds removes : ℕ → Input
  indexes : ℤ → Input
  adds_at : ℕ → ℕ → Input

-- One call or event.
pub step : Input → Select → Select
step (selects a) s = set_selected a s
step (acts a) s = on_action a s
step (adds a) s = add a s
step (removes a) s = remove a s
step (indexes i) s = set_index i s
step (adds_at a b) s = add_at a b s

pub run : List Input → Select → Select
run [] s = s
run (i ∷ is) s = run is (step i s)

-- The caption is that of the selected item.
IsShown : Select → Type 0
IsShown s = s.caption ≡ selected_of s.model

set_in-IsShown :
    (o : Option Selection) (a : Option ℕ) (s : Select) → IsShown s → IsShown (set_in o a s)
unfolding set_in on_select selected_item IsShown
set_in-IsShown none a s h = h
set_in-IsShown (some m) a s h =
    if_elim (λ (t : Select). t.caption ≡ selected_of t.model) (is_selected a m.selected) _ _ refl
      refl

add_to_model-selected :
    (a : ℕ) (o : Option Selection) → selected_of (add_to_model a o) ≡ selected_of o
unfolding selected_of add_to_model
add_to_model-selected a none = new_selection-selected a (λ x. false)
add_to_model-selected a (some m) = add_item-selected a m

add_at_to_model-selected :
    (a b : ℕ) (o : Option Selection) → selected_of (add_at_to_model a b o) ≡ selected_of o
unfolding selected_of add_at_to_model
add_at_to_model-selected a b none = new_selection-selected a (λ x. false)
add_at_to_model-selected a b (some m) = add_item_at-selected a b m

remove_in-IsShown :
    (o : Option Selection) (a : ℕ) (s : Select)
    → s.caption ≡ selected_of o
    → IsShown s
    → IsShown (remove_in o a s)
unfolding remove_in on_select selected_item selected_of IsShown
remove_in-IsShown none a s e h = h
remove_in-IsShown (some m) a s e h =
    if_cases (λ (t : Select). t.caption ≡ selected_of t.model)
      (if contains a m.items then is_selected (some a) m.selected else false) _ _ (λ f. refl)
      (λ f. e ∙ sym (remove_item-selected a m f))

step-IsShown : (i : Input) (s : Select) → IsShown s → IsShown (step i s)
unfolding step set_selected on_action set_index add add_at remove IsShown
step-IsShown (selects a) s h = set_in-IsShown s.model a s h
step-IsShown (acts a) s h = set_in-IsShown s.model (some a) s h
step-IsShown (adds a) s h = h ∙ sym (add_to_model-selected a s.model)
step-IsShown (removes a) s h = remove_in-IsShown s.model a s h h
step-IsShown (indexes i) s h = set_in-IsShown s.model (item_of i s.model) s h
step-IsShown (adds_at a b) s h = h ∙ sym (add_at_to_model-selected a b s.model)

run-IsShown : (is : List Input) (s : Select) → IsShown s → IsShown (run is s)
unfolding run
run-IsShown [] s h = h
run-IsShown (i ∷ is) s h = run-IsShown is (step i s) (step-IsShown i s h)

pub new_select : Select
new_select = record { model = none; caption = none; changes = 0; actions = 0 }

new_select-IsShown : IsShown new_select
unfolding IsShown new_select selected_of
new_select-IsShown = refl

-- However items are added, removed and selected, the caption is that of the selected item, and that
-- of the button when no item is.
run-caption : (is : List Input) → (run is new_select).caption ≡ selected_item (run is new_select)
unfolding IsShown selected_item
run-caption is = run-IsShown is new_select new_select-IsShown

find_value-value :
    (value : ℕ → ℕ) (v x : ℕ) (xs : List ℕ) → find_value value v xs ≡ some x → value x ≡ v
unfolding find_value
find_value-value value v x [] e = absurd (ground (arith, e))
find_value-value value v x (y ∷ ys) e = elim (Bool-cases (value y == v)) [
  | inl h ↦ ap value (found h) ∙ (==_iff (value y) v).0 h
  | inr h ↦ find_value-value value v x ys (ground (arith, e, h))
]
  where
    found : (value y == v) ≡ true → x ≡ y
    found h = ground (arith, e, h)

selected-set_in :
    (m : Selection) (x : ℕ) (s : Select) → selected_item (set_in (some m) (some x) s) ≡ some x
unfolding set_in on_select selected_item selected_of
selected-set_in m x s =
    if_elim (λ (t : Select). selected_of t.model ≡ some x) (is_selected (some x) m.selected) _ _
      (select_item-selected (some x) m) (select_item-selected (some x) m)

get_value-set_in :
    (value : ℕ → ℕ) (v x : ℕ) (m : Selection) (s : Select)
    → value x ≡ v
    → get_value value (set_in (some m) (some x) s) ≡ some v
unfolding get_value
get_value-set_in value v x m s e = rw (get_value, selected-set_in m x s) (ap some e)

set_in-target :
    (value : ℕ → ℕ) (v x : ℕ) (o : Option Selection) (s : Select)
    → target value (some v) o ≡ some x
    → get_value value (set_in o (target value (some v) o) s) ≡ some v
unfolding target
set_in-target value v x none s e = absurd (ground (arith, e))
set_in-target value v x (some m) s e =
    subst (λ a. get_value value (set_in (some m) a s) ≡ some v) (sym e)
      (get_value-set_in value v x m s (find_value-value value v x m.items e))

-- A value that an item of the model has is the value after it is set.
get_value-set_value :
    (value : ℕ → ℕ) (v x : ℕ) (s : Select)
    → target value (some v) s.model ≡ some x
    → get_value value (set_value value (some v) s) ≡ some v
unfolding set_value set_selected
get_value-set_value value v x s e = set_in-target value v x s.model s e
