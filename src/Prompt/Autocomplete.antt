-- ===== src/Prompt/Autocomplete.antt =====
-- The autocompletion `pn`: the rows that match what is typed, and the row that is highlighted.
pub mod Rows
mod Examples
use demolition_app.Base.{
  ℕ, zero, suc, ◌+◌, ◌-◌, ◌==◌, Bool, true, false, not, ◌&&◌, ◌||◌, Option, some, none, List, [],
  ◌∷◌, length, get_elem?, ltb, leb, if◌then◌else◌,
}

-- `ma`, `Ya`, `jd` with none for -1, whether there is a token `Jb`, whether `Md` runs, the number of
-- timeouts that will cancel it, the settings `lq`, `Wl`, `cp` and `Qo`, and what the "update" events
-- told, the newest first. A row is a number here.
pub record Autocomplete : Type 0 where
  pub rows : List ℕ
  pub first_id : ℕ
  pub hilited : Option ℕ
  pub token : Bool
  pub dismissing : Bool
  pub cancels : ℕ
  pub auto_hilite : Bool
  pub allow_free : Bool
  pub wrap : Bool
  pub again : Bool
  pub updates : List (Option ℕ)

-- `qn`, of the rows from an id on.
pub index_of_id : Option ℕ → ℕ → List ℕ → Option ℕ
index_of_id none first rows = none
index_of_id (some b) first rows =
    if ltb b first || leb (length rows) (b - first) then none else some (b - first)

-- `ma[qn(id)]`
pub row_of_id : Option ℕ → ℕ → List ℕ → Option ℕ
unfolding index_of_id
row_of_id id first rows = elim (index_of_id id first rows) [
  | none ↦ none
  | some i ↦ get_elem? rows i
]

abbrev pub last_id : Autocomplete → ℕ
last_id a = a.first_id + length a.rows - 1

-- Where a step of `un` or `vn` goes: it ends, it takes the highlight off, or it tries a row.
pub data Target : Type 0 where
  stay clear : Target
  try_row : ℕ → Target

pub next_target : Option ℕ → Autocomplete → Target
next_target none a = try_row a.first_id
next_target (some c) a =
    if leb a.first_id c && ltb c (last_id a)
    then try_row (suc c)
    else if a.allow_free && c == last_id a
    then clear
    else if a.wrap && c == last_id a
    then try_row a.first_id
    else stay

pub prev_target : Option ℕ → Autocomplete → Target
prev_target none a = if a.wrap then try_row (last_id a) else stay
prev_target (some c) a =
    if ltb a.first_id c
    then try_row (c - 1)
    else if a.allow_free && c == a.first_id
    then clear
    else if a.wrap && c == a.first_id
    then try_row (last_id a)
    else stay

-- `window.clearTimeout(Md)` in `dc`, and what else it resets.
pub dismiss : Autocomplete → Autocomplete
dismiss a = record a {
  hilited = none;
  token = false;
  first_id = a.first_id + length a.rows;
  rows = [];
  dismissing = false;
}

-- `tn`
pub dismiss_later : Autocomplete → Autocomplete
dismiss_later a = record a { dismissing = true }

-- `sn` and `pn`: a dismissal that waits is cancelled now, or one may be soon.
pub cancel_dismiss : Autocomplete → Autocomplete
cancel_dismiss a =
    if a.dismissing then record a { dismissing = false } else record a { cancels = suc a.cancels }

pub run_cancel : Autocomplete → Autocomplete
run_cancel a =
    if a.cancels == 0 then a else record a { dismissing = false; cancels = a.cancels - 1 }

-- New rows, whose ids follow those of the old ones, and no highlight.
pub replace_rows : List ℕ → Autocomplete → Autocomplete
replace_rows rows a = record a {
  first_id = a.first_id + length a.rows;
  rows = rows;
  hilited = none;
}

-- `disabled` is `mg.lk`.
module _ (disabled : ℕ → Bool) where
  abbrev pub is_disabled : Option ℕ → Bool
  is_disabled none = false
  is_disabled (some row) = disabled row

  -- `Cc`
  pub hilite : Option ℕ → Autocomplete → Autocomplete × Bool
  unfolding index_of_id row_of_id
  hilite id a =
      let found : Bool = elim (index_of_id id a.first_id a.rows) [ none ↦ false | some i ↦ true ] in
      if is_disabled (row_of_id id a.first_id a.rows)
      then (a, false)
      else (record a { hilited = id }, found)

  -- The loop of `un` and `vn`, at most `n` more times, from the row `c`.
  pub go_to : Target → (ℕ → Autocomplete) → Autocomplete → Autocomplete
  unfolding hilite
  go_to stay later a = a
  go_to clear later a = (hilite none a).0
  go_to (try_row id) later a = if (hilite (some id) a).1 then (hilite (some id) a).0 else later id

  pub move : (Option ℕ → Autocomplete → Target) → ℕ → Option ℕ → Autocomplete → Autocomplete
  unfolding go_to
  move target zero c a = a
  move target (suc n) c a =
      go_to (target c a) (λ id. move target n (some id) (hilite (some id) a).0) a

  -- `un` and `vn`
  pub hilite_next : Autocomplete → Autocomplete
  unfolding move next_target
  hilite_next a = move next_target (length a.rows) a.hilited a

  pub hilite_prev : Autocomplete → Autocomplete
  unfolding move prev_target
  hilite_prev a = move prev_target (length a.rows) a.hilited a

  -- The row that `rn` chooses.
  pub hilited_row : Autocomplete → Option ℕ
  unfolding row_of_id
  hilited_row a = row_of_id a.hilited a.first_id a.rows

  -- The end of `rn` for the row that was chosen, once its text was put into the field.
  pub finish_select : Option ℕ → Autocomplete → Autocomplete
  unfolding dismiss dismiss_later
  finish_select none a = record (dismiss a) { updates = none ∷ a.updates }
  finish_select (some row) a =
      let closed = if a.again then dismiss_later (record a { token = false }) else dismiss a in
      record closed { updates = some row ∷ closed.updates }

  pub select_hilited : Autocomplete → Autocomplete
  unfolding hilited_row finish_select
  select_hilited a = finish_select (hilited_row a) a

  -- `handleEvent` at "select", with the id of a row or without.
  pub on_select : Option ℕ → Autocomplete → Autocomplete
  unfolding row_of_id hilite select_hilited
  on_select none a = select_hilited a
  on_select (some id) a =
      let row = row_of_id (some id) a.first_id a.rows in
      let known : Bool = elim row [ none ↦ false | some r ↦ true ] in
      let same : Bool = elim a.hilited [ none ↦ false | some h ↦ h == id ] in
      let b = if known && not same then (hilite (some id) a).0 else a in
      if is_disabled row then a else select_hilited b

  -- The end of `ti`, for the index of the row that stays highlighted, or whether one shall be.
  pub hilite_again : Option ℕ → Bool → Autocomplete → Autocomplete
  unfolding hilite hilite_next
  hilite_again none auto a = if auto then hilite_next a else a
  hilite_again (some i) auto a = (hilite (some (a.first_id + i)) a).0

  -- `ti`: new rows; `preserve` and `auto` come from the options.
  pub render_rows : List ℕ → Bool → Option Bool → Autocomplete → Autocomplete
  unfolding index_of_id replace_rows hilite_again
  render_rows rows preserve auto a =
      let d : Option ℕ = if preserve then index_of_id a.hilited a.first_id a.rows else none in
      let b = replace_rows rows a in
      let g : Bool = elim auto [ none ↦ a.auto_hilite | some g ↦ g ] in
      if leb 1 (length rows) && a.token then hilite_again d g b else b
