-- ===== src/Prompt/Control/Flags.antt =====
-- The flags of a control that its transitions keep.
use demolition_app.Base.{
  ◌≡◌, ◌≢◌, ◌≤◌, refl, Bool, true, false, not, ◌&&◌, ◌∷◌, arith, Bool-cases, inl, inr,
}
use demolition_app.Prompt.Control.{
  Flag, Mask, disabled, hover, active, selected, checked, focused, opened, bit, put, changes, Host,
  Control, differ, dispatch, is_automatic, allows, put_state, toggle, auto_toggle, focus, blur,
  set_focusable, perform_action,
}

-- The flags are supported ones, and a disabled control is neither hovered nor active.
pub record IsGood (h : Host) (m : Mask) : Type 0 where
  pub within : (t : Flag) → m t ≡ true → h.supported t ≡ true
  pub calm : m disabled ≡ true → (m hover ≡ false) × (m active ≡ false)

-- A property of the flags holds after a transition when it holds before it and after the change.
pub toggle-elim :
    (P : Mask → Type 0) (h : Host) (a : Flag) (b : Bool) (c : Control)
    → P c.state
    → (h.supported a ≡ true → P (put a b c.state))
    → P (toggle h a b c).state
unfolding toggle allows put_state dispatch
toggle-elim P h a b c before after = elim (Bool-cases (h.supported a)) [
  | inr off ↦ rw off before
  | inl has ↦ rw has (elim (Bool-cases (differ (c.state a) b)) [
    | inr off ↦ rw off before
    | inl d ↦ rw d (elim (Bool-cases (h.announced a)) [
      | inr off ↦ rw off (elim (Bool-cases h.disposed) [
        | inl gone ↦ rw gone before
        | inr here ↦ rw (here, d) (after has)
      ])
      | inl shown ↦
          rw (shown, d)
            (elim (Bool-cases h.disposed) [
              | inl gone ↦ rw gone (elim (Bool-cases (h.answer (changes a b ∷ c.sent))) [
                | inl ok ↦ rw ok before
                | inr ok ↦ rw ok before
              ])
              | inr here ↦ rw here (elim (Bool-cases (h.answer (changes a b ∷ c.sent))) [
                | inl ok ↦ rw ok (after has)
                | inr ok ↦ rw ok before
              ])
            ])
    ])
  ])
]

pub put-IsGood :
    (h : Host) (a : Flag) (b : Bool) (m : Mask)
    → bit a ≢ 1
    → (b ≡ true → bit a ≤ 4 → m disabled ≡ false)
    → h.supported a ≡ true
    → IsGood h m
    → IsGood h (put a b m)
unfolding put
put-IsGood h a b m other calm has g = record {
  within = λ t e. ground (arith, e, g.within t, has);
  calm = λ e. ground (arith, e, calm, other, g.calm);
}

pub toggle-IsGood :
    (h : Host) (a : Flag) (b : Bool) (c : Control)
    → bit a ≢ 1
    → (b ≡ true → bit a ≤ 4 → c.state disabled ≡ false)
    → IsGood h c.state
    → IsGood h (toggle h a b c).state
toggle-IsGood h a b c other calm g =
    toggle-elim (IsGood h) h a b c g (λ has. put-IsGood h a b c.state other calm has g)

pub auto_toggle-elim :
    (P : Mask → Type 0) (h : Host) (a : Flag) (b : Bool) (c : Control)
    → P c.state
    → (h.supported a ≡ true → P (put a b c.state))
    → P (auto_toggle h a b c).state
unfolding auto_toggle
auto_toggle-elim P h a b c before after = elim (Bool-cases (is_automatic h a)) [
  | inl on ↦ rw on (toggle-elim P h a b c before after)
  | inr off ↦ rw off before
]

pub auto_toggle-IsGood :
    (h : Host) (a : Flag) (b : Bool) (c : Control)
    → bit a ≢ 1
    → (b ≡ true → bit a ≤ 4 → c.state disabled ≡ false)
    → IsGood h c.state
    → IsGood h (auto_toggle h a b c).state
auto_toggle-IsGood h a b c other calm g =
    auto_toggle-elim (IsGood h) h a b c g (λ has. put-IsGood h a b c.state other calm has g)

pub auto_toggle-disabled :
    (h : Host) (a : Flag) (b : Bool) (c : Control)
    → bit a ≢ 1
    → (auto_toggle h a b c).state disabled ≡ c.state disabled
unfolding put
auto_toggle-disabled h a b c other =
    auto_toggle-elim (λ m. m disabled ≡ c.state disabled) h a b c refl (λ has. ground arith)

pub blur-IsGood : (h : Host) (c : Control) → IsGood h c.state → IsGood h (blur h c).state
unfolding blur
blur-IsGood h c g =
    auto_toggle-IsGood h focused false (auto_toggle h active false c) (ground arith) (ground arith)
      (auto_toggle-IsGood h active false c (ground arith) (ground arith) g)

pub focus-IsGood : (h : Host) (c : Control) → IsGood h c.state → IsGood h (focus h c).state
unfolding focus
focus-IsGood h c g = auto_toggle-IsGood h focused true c (ground arith) (ground arith) g

-- A property of the flags that a blur keeps is kept by the loss of the focus.
pub set_focusable-elim :
    (P : Mask → Type 0) (h : Host) (b : Bool) (c : Control)
    → ((d : Control) → P d.state → P (blur h d).state)
    → P c.state
    → P (set_focusable h b c).state
unfolding set_focusable
set_focusable-elim P h b c keep before =
    elim (Bool-cases (h.supported focused && h.key_target && not b && c.state focused)) [
      | inr off ↦ rw off before
      | inl on ↦ rw on (elim (Bool-cases h.blurs) [
        | inr off ↦ rw off (elim (Bool-cases (c.state focused)) [
          | inl f ↦ rw f (keep c before)
          | inr f ↦ rw f before
        ])
        | inl now ↦ rw now (elim (Bool-cases ((blur h c).state focused)) [
          | inl f ↦ rw f (keep (blur h c) (keep c before))
          | inr f ↦ rw f (keep c before)
        ])
      ])
    ]

pub perform_action-IsGood :
    (h : Host) (c : Control) → IsGood h c.state → IsGood h (perform_action h c).0.state
unfolding perform_action dispatch
perform_action-IsGood h c g =
    let c₁ = auto_toggle h checked (not (c.state checked)) c in
    let c₂ = auto_toggle h selected true c₁ in
    auto_toggle-IsGood h opened (not (c₂.state opened)) c₂ (ground arith) (ground arith) (
      auto_toggle-IsGood h selected true c₁ (ground arith) (ground arith)
        (auto_toggle-IsGood h checked (not (c.state checked)) c (ground arith) (ground arith) g))

pub set_focusable-IsGood :
    (h : Host) (b : Bool) (c : Control) → IsGood h c.state → IsGood h (set_focusable h b c).state
set_focusable-IsGood h b c g = set_focusable-elim (IsGood h) h b c (blur-IsGood h) g
