-- ===== src/Survey/MultiSelect.antt =====
-- The question `Ds` with several answers: its rows, the row "None of the above" or a field for
-- another answer, and the button that hands the answers in.
pub mod Ready
mod Examples
use demolition_app.Base.{
  ℕ, zero, suc, ◌-◌, ltb, Bool, true, false, not, ◌&&◌, ◌||◌, if◌then◌else◌, String, Option, none,
  some, List, [], ◌∷◌, ◌++◌,
}

-- A row: the value and the index of its box, whether the box is ticked, and the class `selected`.
pub record Row : Type 0 where
  pub value : String
  pub index : String
  pub checked : Bool
  pub selected : Bool

-- The rows; the row of "None of the above" (`Ic`, `$h`), or the text of the field `qa`; whether the
-- button has the class of a disabled one and whether its clicks are heard, or whether the button of
-- the newer design is disabled; `Bn`. `P` is whether the design is the newer one.
pub record MultiSelect : Type 0 where
  pub modern : Bool
  pub rows : List Row
  pub none_row : Option Row
  pub other : Option String
  pub disabled : Bool
  pub listening : Bool
  pub last_spoken : ℕ

-- `Fs`
pub set_row : Bool → Row → Row
set_row b r = record r { checked = b; selected = b }

pub set_rows : Bool → List Row → List Row
unfolding set_row
set_rows b [] = []
set_rows b (r ∷ rows) = set_row b r ∷ set_rows b rows

pub set_none : Bool → Option Row → Option Row
unfolding set_row
set_none b none = none
set_none b (some r) = some (set_row b r)

pub is_checked : Option Row → Bool
is_checked none = false
is_checked (some r) = r.checked

-- The values and the indices of the ticked rows.
pub ticked : List Row → List String
ticked [] = []
ticked (r ∷ rows) = let rest = ticked rows in if r.checked then r.value ∷ rest else rest

pub ticked_indices : List Row → List String
ticked_indices [] = []
ticked_indices (r ∷ rows) =
    let rest = ticked_indices rows in if r.checked then r.index ∷ rest else rest

-- Where the user clicked: a row by its place, or "None of the above".
pub data Place : Type 0 where
  row : ℕ → Place
  none_of_the_above : Place

-- The row at a place, changed by a function.
pub change_row : (Row → Row) → ℕ → List Row → List Row
change_row f n [] = []
change_row f zero (r ∷ rows) = f r ∷ rows
change_row f (suc n) (r ∷ rows) = r ∷ change_row f n rows

pub row_at : ℕ → List Row → Option Row
row_at n [] = none
row_at zero (r ∷ rows) = some r
row_at (suc n) (r ∷ rows) = row_at n rows

-- A click on the box itself: the browser ticks or unticks it before the handler runs.
pub flip_box : Row → Row
flip_box r = record r { checked = not r.checked }

pub flip_none : Option Row → Option Row
unfolding flip_box
flip_none none = none
flip_none (some r) = some (flip_box r)

pub flip_at : Place → MultiSelect → MultiSelect
unfolding change_row flip_box flip_none
flip_at (row n) m = record m { rows = change_row flip_box n m.rows }
flip_at none_of_the_above m = record m { none_row = flip_none m.none_row }

-- The class of the row follows its box.
pub mark_row : Row → Row
unfolding set_row
mark_row r = set_row r.checked r

-- `Pn`, for a row whose box is ticked or not by now: it excludes "None of the above".
pub settle_row : ℕ → Option Row → MultiSelect → MultiSelect
unfolding change_row mark_row set_none
settle_row n none m = m
settle_row n (some r) m = record m {
  rows = change_row mark_row n m.rows;
  none_row = if r.checked then set_none false m.none_row else m.none_row;
}

-- `Pn`, for "None of the above": it excludes all rows.
pub settle_none : Option Row → MultiSelect → MultiSelect
unfolding set_rows mark_row
settle_none none m = m
settle_none (some r) m = record m {
  rows = if r.checked then set_rows false m.rows else m.rows;
  none_row = some (mark_row r);
}

pub settle : Place → MultiSelect → MultiSelect
unfolding settle_row row_at settle_none
settle (row n) m = settle_row n (row_at n m.rows) m
settle none_of_the_above m = settle_none m.none_row m

pub is_nil : List String → Bool
is_nil [] = true
is_nil (v ∷ vs) = false

-- Whether a click on the button reaches `ua`.
pub hands_in : MultiSelect → Bool
hands_in m = if m.modern then not m.disabled else m.listening

-- `zs(qa)` for a text is the parameter: the function that the question gives its field.
module _ (accepts : Bool → String → Bool) where
  pub other_values : Bool → Option String → List String
  other_values modern none = []
  other_values modern (some text) = if accepts modern text then text ∷ [] else []

  -- `Qb`
  pub values : MultiSelect → List String
  unfolding ticked other_values
  values m = ticked m.rows ++ other_values m.modern m.other

  -- `Jj`
  pub indices : MultiSelect → List String
  unfolding ticked_indices
  indices m = ticked_indices m.rows

  -- What is to be disabled, as `wl` finds it.
  pub nothing_chosen : MultiSelect → Bool
  unfolding is_checked is_nil values
  nothing_chosen m = not (is_checked m.none_row) && is_nil (values m)

  -- `wl`
  pub update_button : MultiSelect → MultiSelect
  unfolding nothing_chosen
  update_button m =
      let a = nothing_chosen m in
      let listening =
        if not m.disabled && a then false else if m.disabled && not a then true else m.listening in
      record m { disabled = a; listening = if m.modern then m.listening else listening }

  -- `Pn`: a click on a row, on its box or beside it; the first argument is the time that a screen
  -- reader gives, if it made the click.
  pub on_click : Option ℕ → Bool → Place → MultiSelect → MultiSelect
  unfolding flip_at settle update_button
  on_click none on_box place m = update_button (settle place (flip_at place m))
  on_click (some time) on_box place m =
      let again = record m { last_spoken = time } in
      if ltb (time - m.last_spoken) 300
      then if on_box then flip_at place m else m
      else update_button (settle place (flip_at place again))

  pub type_in : Option String → String → MultiSelect → MultiSelect
  unfolding update_button
  type_in none text m = m
  type_in (some _) text m = update_button (record m { other = some text })

  -- The text of the field changes: its event leads to `wl`.
  pub on_other : String → MultiSelect → MultiSelect
  unfolding type_in
  on_other text m = type_in m.other text m
