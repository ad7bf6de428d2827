-- ===== src/Prompt/MenuButton/Opening.antt =====
-- What is open together.
use demolition_app.Base.{
  ℕ, ◌≡◌, refl, Bool, true, false, not, ◌&&◌, ◌||◌, ◌==◌, List, [], ◌∷◌, if_elim, if_cases, arith,
}
use demolition_app.Prompt.MenuButton.{
  MenuButton, Cause, no_key, mark_open, set_open, on_mouse_down, on_mouse_up,
  on_document_mouse_down, KeyType, is_keyup, is_key, on_key, on_key_event, on_action, on_menu_blur,
  on_blur, set_menu, set_visible, set_enabled,
}

pub data Input : Type 0 where
  call_open call_visible call_enabled call_menu : Bool → Input
  mouse_down mouse_up document_mouse_down : Bool → Input
  key_event : KeyType → ℕ → Bool → Input
  action menu_blur blur : Input

-- One call or event.
pub step : Input → MenuButton → MenuButton
step (call_open b) m = set_open b no_key m
step (call_visible b) m = set_visible b m
step (call_enabled b) m = set_enabled b m
step (call_menu b) m = set_menu b m
step (mouse_down active) m = on_mouse_down active m
step (mouse_up active) m = on_mouse_up active m
step (document_mouse_down within) m = on_document_mouse_down within m
step (key_event type code handled) m = (on_key_event type code handled m).0
step action m = on_action m
step menu_blur m = on_menu_blur m
step blur m = on_blur m

pub run : List Input → MenuButton → MenuButton
run [] m = m
run (i ∷ is) m = run is (step i m)

-- A menu that is shown belongs to an open button, and the button listens and looks for moves of
-- the window exactly while its menu is shown.
pub record IsTidy (m : MenuButton) : Type 0 where
  pub owned : m.menu_visible ≡ true → m.has_menu && m.opened ≡ true
  pub hears : m.listens ≡ m.menu_visible
  pub looks : m.ticking ≡ m.menu_visible
  pub alive : m.disposed ≡ false

set_open-IsTidy : (b : Bool) (c : Cause) (m : MenuButton) → IsTidy m → IsTidy (set_open b c m)
unfolding set_open mark_open
set_open-IsTidy b c m t =
    if_cases IsTidy m.has_menu _ _
      (λ e. record {
        owned = λ h. ground (arith, h, e);
        hears = ground (arith, t.alive);
        looks = ground (arith, t.alive);
        alive = t.alive;
      })
      (λ e. record {
        owned = λ h. absurd (ground (arith, h, e, t.owned));
        hears = t.hears;
        looks = t.looks;
        alive = t.alive;
      })

-- The parts that the menu does not depend on.
alike :
    (active visible enabled menu_pressed : Bool) (m : MenuButton)
    → IsTidy m
    → IsTidy (record m {
      active = active;
      visible = visible;
      enabled = enabled;
      menu_pressed = menu_pressed;
    })
alike active visible enabled menu_pressed m t = record {
  owned = t.owned;
  hears = t.hears;
  looks = t.looks;
  alive = t.alive;
}

set_open-closed :
    (c : Cause) (m : MenuButton) → IsTidy m → (set_open false c m).menu_visible ≡ false
unfolding set_open mark_open
set_open-closed c m t =
    if_cases (λ (n : MenuButton). n.menu_visible ≡ false) m.has_menu _ _ (λ e. refl)
      (λ e. ground (arith, e, t.owned))

set_menu-IsTidy : (b : Bool) (m : MenuButton) → IsTidy m → IsTidy (set_menu b m)
unfolding set_menu
set_menu-IsTidy b m t =
    if_cases (λ (n : MenuButton). IsTidy (record n { has_menu = b; menu_visible = false }))
      m.has_menu _ _
      (λ e.
        without (set_open false no_key m) (set_open-IsTidy false no_key m t)
          (set_open-closed no_key m t))
      (λ e. without m t (ground (arith, e, t.owned)))
  where
    without :
        (n : MenuButton)
        → IsTidy n
        → n.menu_visible ≡ false
        → IsTidy (record n { has_menu = b; menu_visible = false })
    without n s h = record {
      owned = λ q. absurd (ground (arith, q));
      hears = ground (arith, h, s.hears);
      looks = ground (arith, h, s.looks);
      alive = s.alive;
    }

on_key-IsTidy :
    (code : ℕ) (handled : Bool) (m : MenuButton) → IsTidy m → IsTidy (on_key code handled m).0
unfolding on_key
on_key-IsTidy code handled m t =
    if_elim (λ (r : MenuButton × Bool). IsTidy r.0) (m.has_menu && m.menu_visible) _ _
      (if_elim (λ (r : MenuButton × Bool). IsTidy r.0) (code == 27 || (code == 13 || code == 32)) _
        _ (set_open-IsTidy false no_key m t) t)
      (if_elim (λ (r : MenuButton × Bool). IsTidy r.0)
        (code == 40 || code == 38 || (code == 13 || code == 32)) _ _ (set_open-IsTidy true _ m t) t)

step-IsTidy : (i : Input) (m : MenuButton) → IsTidy m → IsTidy (step i m)
unfolding step set_visible set_enabled on_mouse_down on_mouse_up on_document_mouse_down on_key_event
    on_action on_menu_blur on_blur
step-IsTidy (call_open b) m t = set_open-IsTidy b no_key m t
step-IsTidy (call_visible b) m t =
    let n = alike m.active b m.enabled m.menu_pressed m t in
    if_elim IsTidy b _ _ n (set_open-IsTidy false no_key _ n)
step-IsTidy (call_enabled b) m t =
    let n = alike m.active m.visible b m.menu_pressed m t in
    if_elim IsTidy b _ _ n (set_open-IsTidy false no_key _ n)
step-IsTidy (call_menu b) m t = set_menu-IsTidy b m t
step-IsTidy (mouse_down active) m t =
    let n = alike active m.visible m.enabled m.menu_pressed m t in
    let o = set_open-IsTidy (not m.opened) no_key (record m { active = active }) n in
    if_elim IsTidy active _ _ (if_elim IsTidy _ _ _ (alike _ _ _ _ _ o) o) n
step-IsTidy (mouse_up active) m t =
    if_elim IsTidy (m.has_menu && not active) _ _ (alike active m.visible m.enabled false m t)
      (alike active m.visible m.enabled m.menu_pressed m t)
step-IsTidy (document_mouse_down within) m t =
    if_elim IsTidy (m.has_menu && m.menu_visible && not within) _ _
      (set_open-IsTidy false no_key m t) t
step-IsTidy (key_event type code handled) m t =
    if_elim (λ (r : MenuButton × Bool). IsTidy r.0) (code == 32) _ _
      (if_elim (λ (r : MenuButton × Bool). IsTidy r.0) (is_keyup type) _ _
        (on_key-IsTidy code handled m t) t)
      (if_elim (λ (r : MenuButton × Bool). IsTidy r.0) (is_key type) _ _
        (on_key-IsTidy code handled m t) t)
step-IsTidy action m t = set_open-IsTidy false no_key m t
step-IsTidy menu_blur m t = if_elim IsTidy m.active _ _ t (set_open-IsTidy false no_key m t)
step-IsTidy blur m t = if_elim IsTidy m.menu_takes_focus _ _ t (set_open-IsTidy false no_key m t)

-- In a button that is not disposed of, if it was so before, then after any calls and events a menu
-- that is shown belongs to an open button, and the button listens to the document and looks for
-- moves of the window exactly while its menu is shown.
run-IsTidy : (is : List Input) (m : MenuButton) → IsTidy m → IsTidy (run is m)
unfolding run
run-IsTidy [] m t = t
run-IsTidy (i ∷ is) m t = run-IsTidy is (step i m) (step-IsTidy i m t)
