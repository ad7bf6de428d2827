-- ===== src/Prompt/Control.antt =====
-- The control `U` and the part of its renderer that changes it: its state flags, and what the
-- events of the mouse, of the keyboard and of the focus do to them.
pub mod Inputs
pub mod Flags
pub mod Enabling
pub mod Steps
pub mod Clicks
mod Examples
use demolition_app.Base.{
  ℕ, Bool, true, false, not, ◌&&◌, ◌||◌, Option, some, none, List, [], ◌∷◌, ◌==◌, if◌then◌else◌,
}

-- The bits 1, 2, 4, 8, 16, 32 and 64 of the masks.
pub data Flag : Type 0 where
  disabled hover active selected checked focused opened : Flag

abbrev pub bit : Flag → ℕ
bit disabled = 1
bit hover = 2
bit active = 4
bit selected = 8
bit checked = 16
bit focused = 32
bit opened = 64

-- A mask, by its bits.
abbrev pub Mask : Type 0
Mask = Flag → Bool

-- `b?D|a:D&~a`
pub put : Flag → Bool → Mask → Mask
put a b m t = if bit a == bit t then b else m t

-- The events that a control dispatches: `Pn(b,c)`, "show", "hide", "enter", "leave" and "action".
pub data ControlEvent : Type 0 where
  changes : Flag → Bool → ControlEvent
  show hide enter leave action : ControlEvent

-- What the operations read: `Fg`, `tc`, `Eg`, `Bb` and `ca`; whether the parent is enabled; whether
-- there is a key target, blurring it sends "blur" at once, and focusing it sends "focus"; and what
-- the listeners answer to the newest of the events that were sent. They do not change the control.
pub record Host : Type 0 where
  pub supported : Mask
  pub automatic : Mask
  pub announced : Mask
  pub disposed : Bool
  pub rendered : Bool
  pub parent_enabled : Bool
  pub key_target : Bool
  pub blurs : Bool
  pub focuses : Bool
  pub answer : List ControlEvent → Bool

-- `D`, `S`, and the events that were sent, the newest first.
pub record Control : Type 0 where
  pub state : Mask
  pub visible : Bool
  pub sent : List ControlEvent

abbrev pub differ : Bool → Bool → Bool
differ true b = not b
differ false b = b

pub dispatch : Host → ControlEvent → Control → Control × Bool
dispatch h e c = (record c { sent = e ∷ c.sent }, h.answer (e ∷ c.sent))

-- `go`
abbrev pub is_supported : Host → Flag → Bool
is_supported h a = h.supported a

-- `ro`
abbrev pub is_automatic : Host → Flag → Bool
is_automatic h a = h.automatic a && h.supported a

-- `isEnabled`
abbrev pub is_enabled : Control → Bool
is_enabled c = not (c.state disabled)

-- `qo`
pub allows : Host → Flag → Bool → Control → Control × Bool
unfolding dispatch
allows h a b c =
    let (c', ok) = dispatch h (changes a b) c in
    if h.supported a && differ (c.state a) b
    then if h.announced a then (c', ok && not h.disposed) else (c, not h.disposed)
    else (c, false)

-- `Ta`, for a flag that is forced or is not `disabled`.
pub put_state : Host → Flag → Bool → Control → Control
unfolding put
put_state h a b c =
    if h.supported a && differ (c.state a) b then record c { state = put a b c.state } else c

-- `qo(this,a,b)&&this.Ta(a,b)`: `Yb`, `setActive`, `jl` and `ra`
pub toggle : Host → Flag → Bool → Control → Control
unfolding allows put_state
toggle h a b c = let (c', ok) = allows h a b c in if ok then put_state h a b c' else c'

-- `ro(this,a)&&…`
pub auto_toggle : Host → Flag → Bool → Control → Control
unfolding toggle
auto_toggle h a b c = let c' = toggle h a b c in if is_automatic h a then c' else c

-- `Wd` and `zc`
pub focus : Host → Control → Control
unfolding auto_toggle
focus h c = auto_toggle h focused true c

pub blur : Host → Control → Control
unfolding auto_toggle
blur h c = auto_toggle h focused false (auto_toggle h active false c)

-- `Tc` of the renderer: a focused control loses the focus when it can no longer have it.
pub set_focusable : Host → Bool → Control → Control
unfolding blur
set_focusable h b c =
    let c₁ = if h.blurs then blur h c else c in
    if h.supported focused && h.key_target && not b && c.state focused
    then if c₁.state focused then blur h c₁ else c₁
    else c

-- `ib`, after the transition is allowed.
pub switch_enabled : Host → Bool → Control → Control
unfolding set_focusable
switch_enabled h b c =
    let c₂ = if b then c else toggle h hover false (toggle h active false c) in
    let c₃ = if c₂.visible then set_focusable h b c₂ else c₂ in put_state h disabled (not b) c₃

-- `ib`
pub set_enabled : Host → Bool → Control → Control
unfolding switch_enabled
set_enabled h b c =
    let (c₁, ok) = allows h disabled (not b) c in
    if h.parent_enabled then if ok then switch_enabled h b c₁ else c₁ else c

-- `Zb`, after it is allowed.
pub switch_visible : Host → Bool → Control → Control × Bool
unfolding set_focusable
switch_visible h a c =
    (record (if is_enabled c then set_focusable h a c else c) { visible = a }, true)

-- `Zb`
pub set_visible : Host → Bool → Bool → Control → Control × Bool
unfolding switch_visible
set_visible h a force c =
    let (c', ok) = dispatch h (if a then show else hide) c in
    if force
    then switch_visible h a c
    else if differ c.visible a
    then if ok then switch_visible h a c' else (c', false)
    else (c, false)

-- `me`
pub perform_action : Host → Control → Control × Bool
unfolding auto_toggle
perform_action h c =
    let c₁ = auto_toggle h checked (not (c.state checked)) c in
    let c₂ = auto_toggle h selected true c₁ in
    dispatch h action (auto_toggle h opened (not (c₂.state opened)) c₂)

-- `Uj`; `outside` tells that the mouse comes from outside of the control.
pub mouse_over : Host → Bool → Control → Control
mouse_over h outside c =
    let (c', ok) = dispatch h enter c in
    if outside then if ok && is_enabled c' then auto_toggle h hover true c' else c' else c

-- `Tj`; `inside` tells that the mouse stays inside of the control.
pub mouse_out : Host → Bool → Control → Control
mouse_out h inside c =
    let (c', ok) = dispatch h leave c in
    if inside
    then c
    else if ok
    then auto_toggle h hover false (auto_toggle h active false c')
    else c'

-- `ic`; `plain` tells that it is the button that acts, and not with Control on a Mac in WebKit.
pub mouse_down : Host → Bool → Control → Control
unfolding focus
mouse_down h plain c =
    let c₁ = auto_toggle h hover true c in
    let c₂ = auto_toggle h active true c₁ in
    if is_enabled c
    then if plain
      then if h.supported focused && h.key_target && h.focuses then focus h c₂ else c₂
      else c₁
    else c

-- `ed`
pub mouse_up : Host → Control → Control
unfolding perform_action
mouse_up h c =
    let c₁ = auto_toggle h hover true c in
    let (c₂, ok) = perform_action h c₁ in
    if is_enabled c
    then if c₁.state active then if ok then auto_toggle h active false c₂ else c₂ else c₁
    else c

-- `cn`
pub double_click : Host → Control → Control
double_click h c = if is_enabled c then (perform_action h c).0 else c

-- `Eb` and `hc`: the new state, and whether the key was handled.
pub key : Host → ℕ → Control → Control × Bool
key h key_code c =
    if c.visible && is_enabled c && key_code == 13 then perform_action h c else (c, false)

-- `Na`: the new mask of supported flags and the new state; it throws for a rendered control that
-- has the flag.
pub set_supported : Host → Flag → Bool → Control → Option (Mask × Control)
set_supported h a b c =
    if h.rendered && c.state a && not b
    then none
    else some (
      put a b h.supported,
      if not b && c.state a
          then if bit a == 1 then set_enabled h true c else put_state h a false c
          else c,
    )
