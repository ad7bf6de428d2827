-- ===== src/Survey/Choice.antt =====
-- The question `Bs` with one answer out of several: its rows, the field for another answer, and the
-- button "Next" that some formats have.
pub mod Chosen
mod Examples
use demolition_app.Base.{
  ℕ, zero, suc, ltb, Bool, true, false, not, ◌&&◌, ◌||◌, if◌then◌else◌, Option, none, some, List,
  [], ◌∷◌, ◌++◌, length,
}
use demolition_app.Survey.TextField.{Text, is_blank}

-- What an answer comes from.
pub data Target : Type 0 where
  row : ℕ → Target
  other : Target

-- Whether there is a button "Next" (`la`) and whether the design is the newer one (`P`); whether there
-- is a field `qa`; which rows are selected and whether they are enabled; whether the cell of the field
-- is selected, and its text; whether "Next" is disabled; `response.t`; the targets that were handed to
-- `Y.prototype.ua`.
pub record Choice : Type 0 where
  pub has_next : Bool
  pub modern : Bool
  pub has_other : Bool
  pub rows : List Bool
  pub rows_enabled : Bool
  pub other_selected : Bool
  pub text : Text
  pub next_disabled : Bool
  pub took_other : Bool
  pub handed : List Target

pub clear_rows : List Bool → List Bool
clear_rows [] = []
clear_rows (b ∷ bs) = false ∷ clear_rows bs

-- `Cs`
pub clear : Choice → Choice
unfolding clear_rows
clear m = record m { rows = clear_rows m.rows; other_selected = false }

pub select : ℕ → List Bool → List Bool
select n [] = []
select zero (b ∷ bs) = true ∷ bs
select (suc n) (b ∷ bs) = b ∷ select n bs

-- The first selected element of the page; the cell of the field comes after the rows.
pub next_found : Option ℕ → Option ℕ
next_found none = none
next_found (some n) = some (suc n)

pub first_selected : List Bool → Option ℕ
unfolding next_found
first_selected [] = none
first_selected (b ∷ bs) = let rest = first_selected bs in if b then some zero else next_found rest

pub selected_target : Option ℕ → Bool → Option Target
selected_target (some n) cell = some (row n)
selected_target none cell = if cell then some other else none

-- Which texts the field accepts (`ik`) is the parameter.
module _ (accepts : Bool → Text → Bool) where
  pub is_valid : Choice → Bool
  is_valid m = accepts m.modern m.text

  -- The end of `ua`, before `Y` marks the target: the answer is handed on, unless its row is disabled or its text is not accepted.
  pub hand_on : Target → Choice → Choice
  unfolding is_valid
  hand_on (row n) m =
      if m.rows_enabled then record m { took_other = false; handed = row n ∷ m.handed } else m
  hand_on other m =
      if is_valid m then record m { took_other = true; handed = other ∷ m.handed } else m

  -- `ua`, where "Next" hands the answer on: a click on a row only selects it.
  pub choose_row : ℕ → Choice → Choice
  unfolding clear select
  choose_row n m₀ =
      let m = clear m₀ in
      record m {
        rows = if m.rows_enabled then select n m.rows else m.rows;
        next_disabled = if m.rows_enabled then false else m.next_disabled;
      }

  -- `ua`, where "Next" hands the answer on: the field is focused.
  pub choose_other : Choice → Choice
  unfolding clear is_valid
  choose_other m₀ =
      let m = clear m₀ in record m { other_selected = true; next_disabled = not (is_valid m) }

  pub hand_on_some : Option Target → Choice → Option Choice
  unfolding hand_on
  hand_on_some none m = none
  hand_on_some (some t) m = some (hand_on t m)

  -- `ua`, for a click on "Next" in the older design: it is an error when nothing is selected.
  pub on_next : Choice → Option Choice
  unfolding selected_target first_selected hand_on_some
  on_next m =
      if m.next_disabled
      then some m
      else hand_on_some (selected_target (first_selected m.rows) m.other_selected) m

  -- `ua`, for a click on a row.
  pub on_row : ℕ → Choice → Choice
  unfolding choose_row clear hand_on
  on_row n m = if m.has_next && not m.modern then choose_row n m else hand_on (row n) (clear m)

  -- `ao`, where there is a button "Next".
  pub change_next : Choice → Choice
  unfolding is_valid clear first_selected
  change_next m =
      let valid = is_valid m in
      let kept = if valid then clear m else m in
      let nothing = selected_target (first_selected kept.rows) valid in
      if m.modern
      then record kept {
        other_selected = valid;
        next_disabled = elim nothing [ none ↦ true | some _ ↦ false ];
      }
      else record m { next_disabled = not valid }

  -- `ao`
  pub on_change : Choice → Choice
  unfolding change_next is_valid
  on_change m =
      if m.has_next
      then change_next m
      else record m { rows_enabled = if m.modern then is_blank m.text else not (is_valid m) }

  -- The field is focused: `ua` where "Next" hands the answer on, else `ao`.
  pub on_focus : Choice → Choice
  unfolding choose_other on_change
  on_focus m = if m.has_next && not m.modern then choose_other m else on_change m

  -- The field hands its text in.
  pub on_submit : Choice → Choice
  unfolding hand_on clear
  on_submit m = hand_on other (if m.has_next && not m.modern then m else clear m)
