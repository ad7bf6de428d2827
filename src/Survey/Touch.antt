-- ===== src/Survey/Touch.antt =====
-- The class `Ru`, which makes a click of a tap before the browser does.
pub mod Taps
mod Examples
use demolition_app.Base.Int.{ℤ, pos, negsuc, int_sub, int_leb}
use demolition_app.Base.{
  ℕ, ltb, ◌==◌, Bool, true, false, not, ◌&&◌, ◌||◌, if◌then◌else◌, String, str_eq, Option, none,
  some, List, [], ◌∷◌, ◌++◌,
}

-- An element: a name for it, its tag in capitals, `type`, `disabled`, `readOnly`, and how long its
-- value is, if it has a selection that can be set.
pub record Element : Type 0 where
  pub name : ℕ
  pub tag : String
  pub type : String
  pub disabled : Bool
  pub read_only : Bool
  pub selection : Option ℕ

-- `Tu`
pub takes_text : Element → Bool
takes_text e =
    let is_button =
      str_eq e.type "button"
      || str_eq e.type "checkbox"
      || str_eq e.type "file"
      || str_eq e.type "image"
      || str_eq e.type "radio"
      || str_eq e.type "submit" in
    if str_eq e.tag "SELECT" || str_eq e.tag "TEXTAREA"
    then true
    else str_eq e.tag "INPUT" && not is_button && not e.disabled && not e.read_only

-- `Wu`: the target of the touch, and where it started.
pub record Touch : Type 0 where
  pub target : Element
  pub x : ℤ
  pub y : ℤ

pub data MouseType : Type 0 where
  mousedown mouseup click : MouseType

-- What happens to the page: an event is made (`Uu`), the active element loses the focus, the target gets
-- it, its text is selected, or the caret is set behind its text; or an event of the browser goes on to
-- its listeners.
pub data Effect : Type 0 where
  made : MouseType → Element → ℤ → ℤ → Effect
  blurred focused selected : ℕ → Effect
  caret : ℕ → ℕ → Effect
  passed : MouseType → Effect

-- `X`
pub record TouchState : Type 0 where
  pub touch : Option Touch
  pub active : Option Element
  pub effects : List Effect

-- `Er`; a text node stands for its parent.
pub on_start : Element → ℤ → ℤ → TouchState → TouchState
on_start e x y s = record s { touch = some (record { target = e; x = x; y = y }) }

-- More than two.
pub is_far : ℤ → ℤ → Bool
is_far a b = let d = int_sub a b in not (int_leb d (pos 2)) || not (int_leb (negsuc 1) d)

pub moved : ℤ → ℤ → Option Touch → Option Touch
unfolding is_far
moved x y none = none
moved x y (some t) = if is_far t.x x || is_far t.y y then none else some t

-- `Dr`
pub on_move : ℤ → ℤ → TouchState → TouchState
unfolding moved
on_move x y s = record s { touch = moved x y s.touch }

pub blur_active : Element → Option Element → List Effect
unfolding takes_text
blur_active target none = []
blur_active target (some e) =
    if takes_text e && not (e.name == target.name) then blurred e.name ∷ [] else []

pub set_caret : Element → Option ℕ → List Effect
set_caret e none = []
set_caret e (some n) = if str_eq e.type "number" then [] else caret e.name n ∷ []

pub focus_target : Element → List Effect
unfolding takes_text set_caret
focus_target e =
    if takes_text e then focused e.name ∷ selected e.name ∷ set_caret e e.selection else []

-- What a tap makes of a touch.
pub tap : Option Element → Touch → List Effect
unfolding blur_active focus_target
tap active t =
    made mousedown t.target t.x t.y
    ∷ made mouseup t.target t.x t.y
    ∷ made click t.target t.x t.y
    ∷ (blur_active t.target active ++ focus_target t.target)

pub tap_some : Option Element → Option Touch → List Effect
unfolding tap
tap_some active none = []
tap_some active (some t) = tap active t

-- The element that has the focus afterwards.
pub active_after : Option Element → Option Touch → Option Element
unfolding takes_text
active_after active none = active
active_after active (some t) = elim active [
  | none ↦ if takes_text t.target then some t.target else none
  | some e ↦
      if takes_text t.target
      then some t.target
      else if takes_text e && not (e.name == t.target.name)
      then none
      else some e
]

-- `Cr`
pub on_end : TouchState → TouchState
unfolding tap_some active_after
on_end s = record s {
  active = active_after s.active s.touch;
  effects = s.effects ++ tap_some s.active s.touch;
}

pub is_click : MouseType → Bool
is_click mousedown = false
is_click mouseup = false
is_click click = true

-- `Oj`, for an event of the browser: it goes no further while there is a touch, which ends with the
-- click. The events that are made are let through.
pub on_mouse : MouseType → TouchState → TouchState
unfolding is_click
on_mouse type s = elim s.touch [
  | none ↦ record s { effects = s.effects ++ passed type ∷ [] }
  | some t ↦ if is_click type then record s { touch = none } else s
]

pub data Input : Type 0 where
  start : Element → ℤ → ℤ → Input
  move : ℤ → ℤ → Input
  end_touch : Input
  mouse : MouseType → Input

pub step : Input → TouchState → TouchState
unfolding on_start on_move on_end on_mouse
step (start e x y) s = on_start e x y s
step (move x y) s = on_move x y s
step end_touch s = on_end s
step (mouse type) s = on_mouse type s

pub run : List Input → TouchState → TouchState
unfolding step
run [] s = s
run (i ∷ is) s = run is (step i s)
