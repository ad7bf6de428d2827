-- ===== src/Prompt/LabelInput.antt =====
-- The field `Lo`, which shows a label while nothing is entered.
pub mod Value
mod Examples
use demolition_app.Base.{
  ℕ, zero, suc, ◌-◌, ◌==◌, String, str_eq, Bool, true, false, not, ◌&&◌, ◌||◌, Option, some, none,
  if◌then◌else◌,
}

-- What the browser offers: `No()`, placeholders; and `D`, Internet Explorer.
pub record Browser : Type 0 where
  pub placeholders : Bool
  pub explorer : Bool

-- The field's `value`, `placeholder` and whether it is `disabled`; `lc`, `Se`, `ec`, whether the
-- class `fg` is set; and the numbers of timeouts that will clear the field, call `Bt` or call `Tq`.
pub record LabelInput : Type 0 where
  pub value : String
  pub placeholder : String
  pub disabled : Bool
  pub label : String
  pub focused : Bool
  pub before_esc : Option String
  pub labelled : Bool
  pub clears : ℕ
  pub restores : ℕ
  pub resets : ℕ

-- `Po`
pub has_changed : LabelInput → Bool
has_changed i = not (str_eq i.value "") && not (str_eq i.value i.label)

-- `aa`
pub get_value : LabelInput → String
unfolding has_changed
get_value i =
    let shown = if has_changed i then i.value else "" in
    elim i.before_esc [ none ↦ shown | some v ↦ v ]

-- `clear`
pub clear : LabelInput → LabelInput
clear i = record i { value = ""; before_esc = elim i.before_esc [ none ↦ none | some v ↦ some "" ] }

-- `ib` and `isEnabled`
pub set_enabled : Bool → LabelInput → LabelInput
set_enabled b i = record i { disabled = not b }

pub is_enabled : LabelInput → Bool
is_enabled i = not i.disabled

-- The events "keydown", "keypress" and "keyup".
pub data KeyEvent : Type 0 where
  down press up : KeyEvent

-- `gr`, at a key code.
pub on_esc : KeyEvent → ℕ → LabelInput → LabelInput
on_esc down code i = if code == 27 then record i { before_esc = some i.value } else i
on_esc press code i =
    let v : String = elim i.before_esc [ none ↦ "" | some v ↦ v ] in
    if code == 27 then record i { value = v } else i
on_esc up code i = if code == 27 then record i { before_esc = none } else i

-- `jr`: the form is sent.
pub on_submit : LabelInput → LabelInput
unfolding has_changed
on_submit i = if has_changed i then i else record i { value = ""; resets = suc i.resets }

-- `Tq` and `Bt`, when their timeouts run out, and the timeout of `dn`.
pub run_reset : LabelInput → LabelInput
unfolding has_changed
run_reset i =
    let j = record i { resets = i.resets - 1 } in
    if i.resets == 0 then i else if has_changed i then j else record j { value = i.label }

pub run_restore : LabelInput → LabelInput
unfolding has_changed
run_restore i =
    let j = record i { restores = i.restores - 1 } in
    if i.restores == 0
    then i
    else if has_changed i || i.focused
    then j
    else record j { value = i.label }

pub run_clear : LabelInput → LabelInput
run_clear i = if i.clears == 0 then i else record i { value = ""; clears = i.clears - 1 }

module _ (b : Browser) where
  -- `$c`
  pub check : LabelInput → LabelInput
  unfolding has_changed
  check i =
      let j = record i { placeholder = if b.placeholders then i.label else i.placeholder } in
      let empty = record j {
        labelled = if i.focused then i.labelled else true;
        restores = if b.placeholders then i.restores else suc i.restores;
      } in
      if has_changed i then record j { labelled = false } else empty

  -- `dn`
  pub on_focus : LabelInput → LabelInput
  unfolding has_changed
  on_focus i =
      let j = record i { focused = true; labelled = false } in
      let emptied =
        if b.explorer then record j { clears = suc i.clears } else record j { value = "" } in
      if not b.placeholders && not (has_changed i) then emptied else j

  -- `Vq`
  pub on_blur : LabelInput → LabelInput
  unfolding check
  on_blur i =
      check
        (record i { focused = false; before_esc = if b.placeholders then i.before_esc else none })

  -- `Pa`
  pub set_value : String → LabelInput → LabelInput
  unfolding check
  set_value v i =
      check
        (record i { value = v; before_esc = elim i.before_esc [ none ↦ none | some w ↦ some v ] })

  -- `reset`
  pub reset : LabelInput → LabelInput
  unfolding has_changed clear check
  reset i = if has_changed i then check (clear i) else i
