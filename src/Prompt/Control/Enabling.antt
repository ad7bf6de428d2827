-- ===== src/Prompt/Control/Enabling.antt =====
-- What enabling and disabling a control keeps.
use demolition_app.Base.{◌≡◌, Bool, true, false, not, if◌then◌else◌, arith, if_elim, sym, subst}
use demolition_app.Prompt.Control.{
  Flag, Mask, disabled, hover, active, focused, put, Host, Control, dispatch, allows, put_state,
  toggle, auto_toggle, blur, set_focusable, switch_enabled, set_enabled,
}
use demolition_app.Prompt.Control.Flags.{
  IsGood, toggle-elim, toggle-IsGood, auto_toggle-elim, blur-IsGood, set_focusable-elim,
  set_focusable-IsGood,
}

-- No listener is asked before the control loses a flag of the mouse, and it is not disposed of.
pub record Quiet (h : Host) : Type 0 where
  pub hovers : h.announced hover ≡ false
  pub acts : h.announced active ≡ false
  pub lives : h.disposed ≡ false

toggle-false :
    (h : Host) (a : Flag) (c : Control)
    → h.announced a ≡ false
    → h.disposed ≡ false
    → IsGood h c.state
    → (toggle h a false c).state a ≡ false
unfolding toggle allows put_state put dispatch
toggle-false h a c e d g = ground (arith, e, d, g.within a)

-- The flags of a control that can be disabled.
abbrev Calm : Host → Mask → Type 0
Calm h m = IsGood h m × (m hover ≡ false) × (m active ≡ false)

auto_toggle-false :
    (h : Host) (a t : Flag) (c : Control)
    → c.state t ≡ false
    → (auto_toggle h a false c).state t ≡ false
unfolding put
auto_toggle-false h a t c e =
    auto_toggle-elim (λ m. m t ≡ false) h a false c e (λ has. ground (arith, e))

blur-false : (h : Host) (t : Flag) (c : Control) → c.state t ≡ false → (blur h c).state t ≡ false
unfolding blur
blur-false h t c e =
    auto_toggle-false h focused t (auto_toggle h active false c) (auto_toggle-false h active t c e)

set_focusable-Calm :
    (h : Host) (b : Bool) (c : Control) → Calm h c.state → Calm h (set_focusable h b c).state
set_focusable-Calm h b c k =
    set_focusable-elim (Calm h) h b c
      (λ d j. (blur-IsGood h d j.0, blur-false h hover d j.1, blur-false h active d j.2)) k

rest_mouse :
    (h : Host) (c : Control)
    → Quiet h
    → IsGood h c.state
    → Calm h (toggle h hover false (toggle h active false c)).state
unfolding put
rest_mouse h c q g =
    let c₁ = toggle h active false c in
    let g₁ = toggle-IsGood h active false c (ground arith) (ground arith) g in
    let a₁ = toggle-false h active c q.acts q.lives g in
    (
      toggle-IsGood h hover false c₁ (ground arith) (ground arith) g₁,
      toggle-false h hover c₁ q.hovers q.lives g₁,
      toggle-elim (λ m. m active ≡ false) h hover false c₁ a₁ (λ has. ground (arith, a₁)),
    )

put_disabled-IsGood :
    (h : Host) (b : Bool) (c : Control)
    → (b ≡ true → (c.state hover ≡ false) × (c.state active ≡ false))
    → IsGood h c.state
    → IsGood h (put_state h disabled b c).state
unfolding put_state put
put_disabled-IsGood h b c calm g = record {
  within = λ t e. ground (arith, e, g.within t);
  calm = λ e. ground (arith, e, calm, g.calm);
}

if_visible :
    (P : Mask → Type 0) (h : Host) (b : Bool) (c : Control)
    → P c.state
    → P (set_focusable h b c).state
    → P (if c.visible then set_focusable h b c else c).state
if_visible P h b c off on =
    if_elim (λ (d : Control). P d.state) c.visible (set_focusable h b c) c on off

switch_enabled-IsGood :
    (h : Host) (b : Bool) (c : Control)
    → Quiet h
    → IsGood h c.state
    → IsGood h (switch_enabled h b c).state
unfolding switch_enabled
switch_enabled-IsGood h true c q g =
    put_disabled-IsGood h false (if c.visible then set_focusable h true c else c) (ground arith)
      (if_visible (IsGood h) h true c g (set_focusable-IsGood h true c g))
switch_enabled-IsGood h false c q g =
    let c₂ = toggle h hover false (toggle h active false c) in
    let k = rest_mouse h c q g in
    let k₃ = if_visible (Calm h) h false c₂ k (set_focusable-Calm h false c₂ k) in
    put_disabled-IsGood h true (if c₂.visible then set_focusable h false c₂ else c₂)
      (λ e. (k₃.1, k₃.2)) k₃.0

allows-state : (h : Host) (a : Flag) (b : Bool) (c : Control) → (allows h a b c).0.state ≡ c.state
unfolding allows dispatch
allows-state h a b c = ground arith

pub set_enabled-IsGood :
    (h : Host) (b : Bool) (c : Control)
    → Quiet h
    → IsGood h c.state
    → IsGood h (set_enabled h b c).state
unfolding set_enabled
set_enabled-IsGood h b c q g =
    let c₁ = (allows h disabled (not b) c).0 in
    let g₁ = subst (λ m. IsGood h m) (sym (allows-state h disabled (not b) c)) g in
    let ok = (allows h disabled (not b) c).1 in
    let switched = switch_enabled h b c₁ in
    if_elim (λ (d : Control). IsGood h d.state) h.parent_enabled (if ok then switched else c₁) c
      (if_elim (λ (d : Control). IsGood h d.state) ok switched c₁
        (switch_enabled-IsGood h b c₁ q g₁) g₁)
      g
