-- ===== src/Prompt/MenuButton.antt =====
-- The button `cp`, which opens a menu.
pub mod Active
pub mod Opening
mod Examples
use demolition_app.Base.{ℕ, ◌==◌, Bool, true, false, not, ◌&&◌, ◌||◌, if◌then◌else◌}

-- Whether there is a menu `H`; `D&64`, `Dc()`, `S` and `isEnabled()` of the button; `S` and `Hc` of
-- the menu, and whether its first item was highlighted when it opened; whether the button listens to
-- the document and the menu; whether `Y` runs; `Hh`, `Ft` and `Bb`.
pub record MenuButton : Type 0 where
  pub has_menu : Bool
  pub opened : Bool
  pub active : Bool
  pub visible : Bool
  pub enabled : Bool
  pub menu_visible : Bool
  pub menu_pressed : Bool
  pub first_item : Bool
  pub listens : Bool
  pub ticking : Bool
  pub menu_takes_focus : Bool
  pub select_first : Bool
  pub disposed : Bool

-- The key whose event opened the menu, if any: an arrow, Enter or Space, or another one.
pub data Cause : Type 0 where
  no_key arrow enter_or_space : Cause

pub highlights_first : Bool → Cause → Bool
highlights_first select_first no_key = false
highlights_first select_first arrow = true
highlights_first select_first enter_or_space = select_first

-- `cp.b.ra`, where no listener of the event stops the change.
pub mark_open : Bool → MenuButton → MenuButton
mark_open b m = record m { opened = b }

-- `ra`
pub set_open : Bool → Cause → MenuButton → MenuButton
unfolding mark_open highlights_first
set_open b cause m₀ =
    let m = mark_open b m₀ in
    let shown = record m {
      active = if b then m.active else false;
      menu_pressed = if b then m.menu_pressed else false;
      first_item = if b then highlights_first m.select_first cause else m.first_item;
      menu_visible = b;
      listens = if m.disposed then m.listens else b;
      ticking = if m.disposed then m.ticking else b;
    } in
    if m.has_menu then shown else m

-- `ic`, once `cp.b.ic` made the button active or not.
pub on_mouse_down : Bool → MenuButton → MenuButton
unfolding set_open
on_mouse_down active m₀ =
    let m = record m₀ { active = active } in
    let toggled = set_open (not m.opened) no_key m in
    if active
    then if toggled.has_menu then record toggled { menu_pressed = toggled.opened } else toggled
    else m

-- `ed`, after `cp.b.ed`.
pub on_mouse_up : Bool → MenuButton → MenuButton
on_mouse_up active m₀ =
    let m = record m₀ { active = active } in
    if m.has_menu && not active then record m { menu_pressed = false } else m

-- `er`: the pointer was pressed somewhere, in the button and its menu or not.
pub on_document_mouse_down : Bool → MenuButton → MenuButton
unfolding set_open
on_document_mouse_down within m =
    if m.has_menu && m.menu_visible && not within then set_open false no_key m else m

-- The types of the key events, and what `hc` answers.
pub data KeyType : Type 0 where
  key keyup other : KeyType

pub is_keyup : KeyType → Bool
is_keyup key = false
is_keyup keyup = true
is_keyup other = false

pub is_key : KeyType → Bool
is_key key = true
is_key keyup = false
is_key other = false

-- `hc`, once the type let the event through; `handled` is the answer of the menu.
pub on_key : ℕ → Bool → MenuButton → MenuButton × Bool
unfolding set_open
on_key code handled m =
    let confirms = code == 13 || code == 32 in
    let cause = if confirms then enter_or_space else arrow in
    if m.has_menu && m.menu_visible
    then if code == 27 || confirms then (set_open false no_key m, true) else (m, handled)
    else if code == 40 || code == 38 || confirms
    then (set_open true cause m, true)
    else (m, false)

-- `hc`
pub on_key_event : KeyType → ℕ → Bool → MenuButton → MenuButton × Bool
unfolding is_keyup is_key on_key
on_key_event type code handled m =
    if code == 32
    then if is_keyup type then on_key code handled m else (m, true)
    else if is_key type
    then on_key code handled m
    else (m, false)

-- `Rj`
pub on_action : MenuButton → MenuButton
unfolding set_open
on_action m = set_open false no_key m

-- `rr` and `zc`: the menu or the button loses the focus.
pub on_menu_blur : MenuButton → MenuButton
unfolding set_open
on_menu_blur m = if m.active then m else set_open false no_key m

pub on_blur : MenuButton → MenuButton
unfolding set_open
on_blur m = if m.menu_takes_focus then m else set_open false no_key m

-- `xg`: another menu, or none.
pub set_menu : Bool → MenuButton → MenuButton
unfolding set_open
set_menu some_menu m₀ =
    let closed = if m₀.has_menu then set_open false no_key m₀ else m₀ in
    record closed { has_menu = some_menu; menu_visible = false }

-- `Zb` and `ib`, when `cp.b.Zb` and `cp.b.ib` made the change.
pub set_visible : Bool → MenuButton → MenuButton
unfolding set_open
set_visible b m₀ = let m = record m₀ { visible = b } in if b then m else set_open false no_key m

pub set_enabled : Bool → MenuButton → MenuButton
unfolding set_open
set_enabled b m₀ = let m = record m₀ { enabled = b } in if b then m else set_open false no_key m
