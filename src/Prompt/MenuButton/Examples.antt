-- ===== src/Prompt/MenuButton/Examples.antt =====
-- A button whose menu opens by a key and closes by a press elsewhere.
use demolition_app.Base.{refl, true, false, List, [], ◌∷◌, arith}
use demolition_app.Prompt.MenuButton.{MenuButton, key}
use demolition_app.Prompt.MenuButton.Opening.{
  Input, key_event, document_mouse_down, mouse_down, call_menu, IsTidy,
}

abbrev closed : MenuButton
closed = record {
  has_menu = true;
  opened = false;
  active = false;
  visible = true;
  enabled = true;
  menu_visible = false;
  menu_pressed = false;
  first_item = false;
  listens = false;
  ticking = false;
  menu_takes_focus = false;
  select_first = false;
  disposed = false;
}

closed-IsTidy : IsTidy closed
closed-IsTidy = record {
  owned = λ h. absurd (ground (arith, h));
  hears = refl;
  looks = refl;
  alive = refl;
}

abbrev inputs : List Input
inputs = key_event key 40 false ∷ document_mouse_down false ∷ mouse_down true ∷ call_menu false ∷ []
