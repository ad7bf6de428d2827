-- ===== src/Survey/DropDown.antt =====
-- The question `Hs` with a menu, and the menu `Gs` that ignores the end of the tap that opened it.
pub mod Opening
mod Examples
use demolition_app.Base.{
  ℕ, ◌-◌, ltb, Bool, true, false, not, ◌&&◌, ◌||◌, if◌then◌else◌, Option, none, some, List, [], ◌∷◌,
}

-- Whether the menu is open and enabled; its row; `rk`; whether there is the button `la`, and whether it
-- has its class "disabled"; the rows that were handed on, the newest first.
pub record DropDown : Type 0 where
  pub opened : Bool
  pub enabled : Bool
  pub chosen : Option ℕ
  pub last_opened : ℕ
  pub has_button : Bool
  pub button_disabled : Bool
  pub answers : List (Option ℕ)

pub is_none : Option ℕ → Bool
is_none none = true
is_none (some n) = false

pub xor : Bool → Bool → Bool
xor true b = not b
xor false b = b

-- `ra`, for the state `opens` at the time `now`; the second argument is whether an action calls it.
unfoldable pub set_open : Bool → Bool → ℕ → DropDown → DropDown
unfolding is_none xor
set_open opens by_action now m₀ =
    let allowed =
      xor m₀.opened opens && m₀.enabled && (not opens || by_action || is_none m₀.chosen) in
    let stamped = not m₀.opened && opens && not by_action in
    let m = record m₀ { last_opened = if stamped then now else m₀.last_opened } in
    let ignored = by_action && not opens && ltb 0 m.last_opened && ltb (now - m₀.last_opened) 500 in
    if allowed then if ignored then m else record m { opened = opens } else m₀

pub hand_on : DropDown → DropDown
hand_on m = record m { answers = m.chosen ∷ m.answers }

-- `ua`, for the event "action" of the menu, which has its row already.
unfoldable pub on_action : ℕ → DropDown → DropDown
unfolding hand_on
on_action row m₀ =
    let m = record m₀ { chosen = some row } in
    if m.has_button then record m { button_disabled = false } else hand_on m

-- `ua`, for a click on the button.
unfoldable pub on_submit : DropDown → DropDown
unfolding hand_on
on_submit m = if m.has_button && not m.button_disabled then hand_on m else m

pub data Input : Type 0 where
  entered : ℕ → Input
  toggled : Bool → ℕ → Input
  picked : ℕ → Input
  submitted : Input

-- The events "enter" and "focus", an action of the control, a row, and the button.
pub step : Input → DropDown → DropDown
unfolding set_open on_action on_submit
step (entered now) m = set_open true false now m
step (toggled opens now) m = set_open opens true now m
step (picked row) m = on_action row m
step submitted m = on_submit m

unfoldable pub run : List Input → DropDown → DropDown
unfolding step
run [] m = m
run (i ∷ is) m = run is (step i m)
