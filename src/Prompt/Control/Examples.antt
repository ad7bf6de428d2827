-- ===== src/Prompt/Control/Examples.antt =====
-- The theorems of the control at a push button.
use demolition_app.Base.{refl, Bool, true, false, [], ◌∷◌, arith}
use demolition_app.Prompt.Control.{
  Flag, disabled, hover, active, selected, checked, focused, opened, Control, Host,
}
use demolition_app.Prompt.Control.Inputs.{over, down, up, enable, run}
use demolition_app.Prompt.Control.Flags.{IsGood}
use demolition_app.Prompt.Control.Steps.{run-IsGood}

-- The masks 39 and 255 of a new control.
abbrev button_flags : Flag → Bool
button_flags disabled = true
button_flags hover = true
button_flags active = true
button_flags selected = false
button_flags checked = false
button_flags focused = true
button_flags opened = false

abbrev button : Host
button = record {
  supported = button_flags;
  automatic = λ a. true;
  announced = λ a. false;
  disposed = false;
  rendered = true;
  parent_enabled = true;
  key_target = true;
  blurs = true;
  focuses = true;
  answer = λ es. true;
}

abbrev fresh : Control
fresh = record { state = λ a. false; visible = true; sent = [] }

abbrev off : Control
off = record { state = λ a. (elim a [ disabled ↦ true | _ ↦ false ]); visible = true; sent = [] }

run-IsGood_example :
    IsGood button (run button (over true ∷ down true ∷ enable false ∷ up ∷ []) fresh).state
run-IsGood_example =
    run-IsGood button (over true ∷ down true ∷ enable false ∷ up ∷ []) fresh
      (record { hovers = refl; acts = refl; lives = refl })
      (record { within = λ t e. ground (arith, e); calm = λ e. (refl, refl) })
