-- ===== src/Prompt/Control/Clicks.antt =====
-- A click on a control, and what a disabled control ignores.
use demolition_app.Base.{
  ℕ, ◌≡◌, ◌≢◌, refl, Bool, true, false, not, ◌&&◌, List, ◌∷◌, ◌==◌, if◌then◌else◌, arith, if_elim,
  ap, ◌∙◌,
}
use demolition_app.Prompt.Control.{
  Flag, disabled, hover, active, selected, checked, focused, opened, bit, ControlEvent, action,
  Host, Control, dispatch, is_enabled, is_automatic, allows, put_state, toggle, auto_toggle, focus,
  perform_action, mouse_over, mouse_down, mouse_up, double_click, key,
}
use demolition_app.Prompt.Control.Inputs.{over, down, up, double, press, step, toggle-state}

key_off :
    (h : Host) (n : ℕ) (c : Control)
    → c.state disabled ≡ true
    → (c.visible && is_enabled c && n == 13) ≡ false
key_off h n c e = ground (arith, e)

-- A disabled control ignores the buttons of the mouse and the keys, and of the mouse that comes
-- over it it only tells.
step-disabled :
    (h : Host) (c : Control) (plain outside : Bool) (n : ℕ)
    → c.state disabled ≡ true
    → (step h (down plain) c ≡ c)
      × (step h up c ≡ c)
      × (step h double c ≡ c)
      × (step h (press n) c ≡ c)
      × ((step h (over outside) c).state ≡ c.state)
unfolding step mouse_down mouse_up double_click key mouse_over dispatch
step-disabled h c plain outside n e =
    (rw e refl, rw e refl, rw e refl, rw (step, key_off h n c e) refl, ground (arith, e))

-- An enabled and active control that has sent these events.
record Ready (sent : List ControlEvent) (c : Control) : Type 0 where
  enabled : c.state disabled ≡ false
  acts : c.state active ≡ true
  told : c.sent ≡ sent

-- A control that announces no change of a flag, and is active when it is pressed.
pub record Plain (h : Host) : Type 0 where
  pub silent : (a : Flag) → h.announced a ≡ false
  pub lives : h.disposed ≡ false
  pub acts : is_automatic h active ≡ true

toggle-sent :
    (h : Host) (a : Flag) (b : Bool) (c : Control)
    → h.announced a ≡ false
    → (toggle h a b c).sent ≡ c.sent
unfolding toggle allows put_state dispatch
toggle-sent h a b c e = ground (arith, e)

auto_toggle-Ready :
    (h : Host) (a : Flag) (b : Bool) (s : List ControlEvent) (c : Control)
    → Plain h
    → bit a ≢ 1
    → bit a ≢ 4
    → Ready s c
    → Ready s (auto_toggle h a b c)
unfolding auto_toggle
auto_toggle-Ready h a b s c p d e r =
    if_elim (Ready s) (is_automatic h a) (toggle h a b c) c
      (record {
        enabled = ground (arith, toggle-state h a b c disabled (p.silent a), d, r.enabled);
        acts = ground (arith, toggle-state h a b c active (p.silent a), e, r.acts);
        told = toggle-sent h a b c (p.silent a) ∙ r.told;
      })
      r

auto_toggle-active :
    (h : Host) (b : Bool) (c : Control)
    → Plain h
    → (auto_toggle h active b c).state active ≡ b
      × (auto_toggle h active b c).state disabled ≡ c.state disabled
      × (auto_toggle h active b c).sent ≡ c.sent
unfolding auto_toggle
auto_toggle-active h b c p = rw p.acts (
  ground (arith, toggle-state h active b c active (p.silent active), p.lives, p.acts),
  ground (arith, toggle-state h active b c disabled (p.silent active)),
  toggle-sent h active b c (p.silent active),
)

auto_toggle-hover :
    (h : Host) (a : Flag) (b : Bool) (c : Control)
    → Plain h
    → bit a ≢ 1
    → ((auto_toggle h a b c).state disabled ≡ c.state disabled)
      × ((auto_toggle h a b c).sent ≡ c.sent)
unfolding auto_toggle
auto_toggle-hover h a b c p e =
    if_elim (λ (d : Control). (d.state disabled ≡ c.state disabled) × (d.sent ≡ c.sent))
      (is_automatic h a) (toggle h a b c) c
      (
        ground (arith, toggle-state h a b c disabled (p.silent a), e),
        toggle-sent h a b c (p.silent a),
      )
      (refl, refl)

mouse_down-Ready :
    (h : Host) (c : Control)
    → Plain h
    → c.state disabled ≡ false
    → Ready c.sent (mouse_down h true c)
unfolding mouse_down focus
mouse_down-Ready h c p e =
    let c₁ = auto_toggle h hover true c in
    let c₂ = auto_toggle h active true c₁ in
    let k₁ = auto_toggle-hover h hover true c p (ground arith) in
    let k₂ = auto_toggle-active h true c₁ p in
    let r₂ : Ready c.sent c₂ = record {
      enabled = k₂.1 ∙ k₁.0 ∙ e;
      acts = k₂.0;
      told = k₂.2 ∙ k₁.1;
    } in
    rw e (
      if_elim (Ready c.sent) (h.supported focused && h.key_target && h.focuses) (focus h c₂) c₂
        (auto_toggle-Ready h focused true c.sent c₂ p (ground arith) (ground arith) r₂) r₂)

-- The actions before the event "action" is sent.
switched : Host → Control → Control
switched h c =
    let c₁ = auto_toggle h checked (not (c.state checked)) c in
    let c₂ = auto_toggle h selected true c₁ in auto_toggle h opened (not (c₂.state opened)) c₂

switched-Ready :
    (h : Host) (s : List ControlEvent) (c : Control) → Plain h → Ready s c → Ready s (switched h c)
unfolding switched
switched-Ready h s c p r =
    let c₁ = auto_toggle h checked (not (c.state checked)) c in
    let c₂ = auto_toggle h selected true c₁ in
    auto_toggle-Ready h opened (not (c₂.state opened)) s c₂ p (ground arith) (ground arith) (
      auto_toggle-Ready h selected true s c₁ p (ground arith) (ground arith)
        (auto_toggle-Ready h checked (not (c.state checked)) s c p (ground arith) (ground arith) r))

branch_elim {ℓ κ} :
    {A : Type ℓ} (a b c d : A) (P : A → Type κ) (x y z : Bool)
    → x ≡ true
    → y ≡ true
    → (z ≡ true → P a)
    → (z ≡ false → P b)
    → P (if x then (if y then (if z then a else b) else c) else d)
branch_elim a b c d P true true true e f pa pb = pa refl
branch_elim a b c d P true true false e f pa pb = pb refl
branch_elim a b c d P true false z e f pa pb = absurd (ground (arith, f))
branch_elim a b c d P false y z e f pa pb = absurd (ground (arith, e))

mouse_up-Ready :
    (h : Host) (s : List ControlEvent) (c : Control)
    → Plain h
    → Ready s c
    → ((mouse_up h c).sent ≡ action ∷ s)
      × ((mouse_up h c).state active ≡ not (h.answer (action ∷ s)))
unfolding mouse_up perform_action dispatch switched
mouse_up-Ready h s c p r =
    let c₁ = auto_toggle h hover true c in
    let r₁ = auto_toggle-Ready h hover true s c p (ground arith) (ground arith) r in
    let r₂ = switched-Ready h s c₁ p r₁ in
    let c₃ = record (switched h c₁) { sent = action ∷ (switched h c₁).sent } in
    let k = auto_toggle-active h false c₃ p in
    let sent = ap (λ l. action ∷ l) r₂.told in
    let same = ap (λ l. h.answer (action ∷ l)) r₂.told in
    branch_elim (auto_toggle h active false c₃) c₃ c₁ c
      (λ (d : Control). (d.sent ≡ action ∷ s) × (d.state active ≡ not (h.answer (action ∷ s))))
      (is_enabled c) (c₁.state active) (h.answer (action ∷ (switched h c₁).sent))
      (ground (arith, r.enabled)) r₁.acts (λ e. (k.2 ∙ sent, k.0 ∙ ground (arith, e, same)))
      (λ e. (sent, ground (arith, e, same, r₂.acts)))

-- A press and a release of the button on an enabled control send the event "action" once and
-- nothing else; the control then is no longer active, unless a listener refused the action.
mouse_up-mouse_down :
    (h : Host) (c : Control)
    → Plain h
    → c.state disabled ≡ false
    → ((mouse_up h (mouse_down h true c)).sent ≡ action ∷ c.sent)
      × ((mouse_up h (mouse_down h true c)).state active ≡ not (h.answer (action ∷ c.sent)))
mouse_up-mouse_down h c p e =
    mouse_up-Ready h c.sent (mouse_down h true c) p (mouse_down-Ready h c p e)
