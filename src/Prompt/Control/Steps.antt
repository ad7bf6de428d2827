-- ===== src/Prompt/Control/Steps.antt =====
-- What every sequence of inputs of a control keeps, and what a disabled control ignores.
use demolition_app.Base.{
  ℕ, ◌≡◌, Bool, true, false, ◌&&◌, List, [], ◌∷◌, ◌==◌, if◌then◌else◌, arith, Bool-cases, inl, inr,
  ◌∙◌,
}
use demolition_app.Prompt.Control.{
  disabled, hover, active, focused, show, hide, enter, leave, Host, Control, differ, dispatch,
  is_enabled, auto_toggle, focus, switch_visible, set_visible, perform_action, mouse_over,
  mouse_out, mouse_down, mouse_up, double_click, key,
}
use demolition_app.Prompt.Control.Inputs.{
  Input, over, out, down, visibility, up, double, focus_in, focus_out, press, enable, step, run,
}
use demolition_app.Prompt.Control.Flags.{
  IsGood, auto_toggle-IsGood, auto_toggle-disabled, blur-IsGood, focus-IsGood, set_focusable-IsGood,
  perform_action-IsGood,
}
use demolition_app.Prompt.Control.Enabling.{Quiet, set_enabled-IsGood}

mouse_over-IsGood :
    (h : Host) (b : Bool) (c : Control) → IsGood h c.state → IsGood h (mouse_over h b c).state
unfolding mouse_over dispatch
mouse_over-IsGood h false c g = g
mouse_over-IsGood h true c g = elim (Bool-cases (h.answer (enter ∷ c.sent) && is_enabled c)) [
  | inl on ↦ rw on (
      auto_toggle-IsGood h hover true (record c { sent = enter ∷ c.sent }) (ground arith)
        (λ e le. ground (arith, on)) g)
  | inr off ↦ rw off g
]

mouse_out-IsGood :
    (h : Host) (b : Bool) (c : Control) → IsGood h c.state → IsGood h (mouse_out h b c).state
unfolding mouse_out dispatch
mouse_out-IsGood h true c g = g
mouse_out-IsGood h false c g =
    let c' = record c { sent = leave ∷ c.sent } in
    elim (Bool-cases (h.answer (leave ∷ c.sent))) [
      | inl on ↦ rw on (
          auto_toggle-IsGood h hover false (auto_toggle h active false c') (ground arith)
            (ground arith) (auto_toggle-IsGood h active false c' (ground arith) (ground arith) g))
      | inr off ↦ rw off g
    ]

mouse_down-IsGood :
    (h : Host) (b : Bool) (c : Control) → IsGood h c.state → IsGood h (mouse_down h b c).state
unfolding mouse_down
mouse_down-IsGood h b c g = elim (Bool-cases (c.state disabled)) [
  | inl off ↦ rw off g
  | inr on ↦
      let c₁ = auto_toggle h hover true c in
      let g₁ = auto_toggle-IsGood h hover true c (ground arith) (λ e le. on) g in
      let on₁ : c₁.state disabled ≡ false =
        auto_toggle-disabled h hover true c (ground arith) ∙ on in
      let g₂ = auto_toggle-IsGood h active true c₁ (ground arith) (λ e le. on₁) g₁ in
      rw on
        (elim b
          as (λ k.
            IsGood h
              (if k
                then (if h.supported focused && h.key_target && h.focuses
                    then focus h (auto_toggle h active true c₁)
                    else auto_toggle h active true c₁)
                else c₁).state) [
                  | false ↦ g₁
                  | true ↦ elim (Bool-cases (h.supported focused && h.key_target && h.focuses)) [
                    | inl f ↦ rw f (focus-IsGood h (auto_toggle h active true c₁) g₂)
                    | inr f ↦ rw f g₂
                  ]
                ])
]

mouse_up-IsGood : (h : Host) (c : Control) → IsGood h c.state → IsGood h (mouse_up h c).state
unfolding mouse_up
mouse_up-IsGood h c g = elim (Bool-cases (c.state disabled)) [
  | inl off ↦ rw off g
  | inr on ↦
      let c₁ = auto_toggle h hover true c in
      let g₁ = auto_toggle-IsGood h hover true c (ground arith) (λ e le. on) g in
      let g₂ = perform_action-IsGood h c₁ g₁ in
      rw on (elim (Bool-cases (c₁.state active)) [
        | inr a ↦ rw a g₁
        | inl a ↦ rw a (elim (Bool-cases (perform_action h c₁).1) [
          | inl ok ↦ rw ok (
              auto_toggle-IsGood h active false (perform_action h c₁).0 (ground arith)
                (ground arith) g₂)
          | inr ok ↦ rw ok g₂
        ])
      ])
]

double_click-IsGood :
    (h : Host) (c : Control) → IsGood h c.state → IsGood h (double_click h c).state
unfolding double_click
double_click-IsGood h c g = elim (Bool-cases (c.state disabled)) [
  | inl off ↦ rw off g
  | inr on ↦ rw on (perform_action-IsGood h c g)
]

key-IsGood : (h : Host) (n : ℕ) (c : Control) → IsGood h c.state → IsGood h (key h n c).0.state
unfolding key
key-IsGood h n c g = elim (Bool-cases (c.visible && is_enabled c && n == 13)) [
  | inl on ↦ rw on (perform_action-IsGood h c g)
  | inr off ↦ rw off g
]

switch_visible-IsGood :
    (h : Host) (a : Bool) (c : Control) → IsGood h c.state → IsGood h (switch_visible h a c).0.state
unfolding switch_visible
switch_visible-IsGood h a c g = elim (Bool-cases (c.state disabled)) [
  | inl off ↦ rw off g
  | inr on ↦ rw on (set_focusable-IsGood h a c g)
]

set_visible-IsGood :
    (h : Host) (a : Bool) (c : Control)
    → IsGood h c.state
    → IsGood h (set_visible h a false c).0.state
unfolding set_visible dispatch
set_visible-IsGood h a c g =
    let e = (if a then show else hide) ∷ c.sent in
    elim (Bool-cases (differ c.visible a)) [
      | inr same ↦ rw same g
      | inl new ↦ rw new (elim (Bool-cases (h.answer e)) [
        | inl ok ↦ rw ok (switch_visible-IsGood h a (record c { sent = e }) g)
        | inr ok ↦ rw ok g
      ])
    ]

step-IsGood :
    (h : Host) (i : Input) (c : Control) → Quiet h → IsGood h c.state → IsGood h (step h i c).state
unfolding step
step-IsGood h (over b) c q g = mouse_over-IsGood h b c g
step-IsGood h (out b) c q g = mouse_out-IsGood h b c g
step-IsGood h (down b) c q g = mouse_down-IsGood h b c g
step-IsGood h (visibility b) c q g = set_visible-IsGood h b c g
step-IsGood h up c q g = mouse_up-IsGood h c g
step-IsGood h double c q g = double_click-IsGood h c g
step-IsGood h focus_in c q g = focus-IsGood h c g
step-IsGood h focus_out c q g = blur-IsGood h c g
step-IsGood h (press n) c q g = key-IsGood h n c g
step-IsGood h (enable b) c q g = set_enabled-IsGood h b c q g

-- When no listener is asked before the flags of the mouse change and the control is not disposed
-- of, every sequence of inputs keeps it so that its flags are supported ones, and that a disabled
-- control is neither hovered nor active.
pub run-IsGood :
    (h : Host) (is : List Input) (c : Control)
    → Quiet h
    → IsGood h c.state
    → IsGood h (run h is c).state
unfolding run
run-IsGood h [] c q g = g
run-IsGood h (i ∷ is) c q g = run-IsGood h is (step h i c) q (step-IsGood h i c q g)
