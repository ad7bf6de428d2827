-- ===== src/Prompt/Control/Inputs.antt =====
-- Runs of a control: its inputs, and what every sequence of them keeps.
use demolition_app.Base.{ℕ, ◌≡◌, Bool, false, not, ◌&&◌, List, [], ◌∷◌, ◌==◌, if◌then◌else◌, arith}
use demolition_app.Prompt.Control.{
  Flag, bit, put, Host, Control, allows, put_state, toggle, focus, blur, set_enabled, set_visible,
  mouse_over, mouse_out, mouse_down, mouse_up, double_click, key,
}

-- One call from outside.
pub data Input : Type 0 where
  over out down visibility : Bool → Input
  up double focus_in focus_out : Input
  press : ℕ → Input
  enable : Bool → Input

unfoldable pub step : Host → Input → Control → Control
step h (over b) c = mouse_over h b c
step h (out b) c = mouse_out h b c
step h (down b) c = mouse_down h b c
step h (visibility b) c = (set_visible h b false c).0
step h up c = mouse_up h c
step h double c = double_click h c
step h focus_in c = focus h c
step h focus_out c = blur h c
step h (press n) c = (key h n c).0
step h (enable b) c = set_enabled h b c

unfoldable pub run : Host → List Input → Control → Control
run h [] c = c
run h (i ∷ is) c = run h is (step h i c)

-- What a transition does to each flag, when it announces nothing.
pub toggle-state :
    (h : Host) (a : Flag) (b : Bool) (c : Control) (t : Flag)
    → h.announced a ≡ false
    → (toggle h a b c).state t
      ≡ (if bit a == bit t && h.supported a && not h.disposed then b else c.state t)
unfolding toggle allows put_state put
toggle-state h a b c t e = ground (arith, e)
