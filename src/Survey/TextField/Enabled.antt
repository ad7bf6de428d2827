-- ===== src/Survey/TextField/Enabled.antt =====
-- When the button of the field works, and which texts are handed in.
use demolition_app.Base.{
  ℕ, ◌≡◌, refl, subst, sym, ◌⊎◌, inl, inr, Bool, true, not, ◌&&◌, ◌||◌, ◌==◌, if_elim, if_cases,
  List, [], ◌∷◌, ◌++◌, arith,
}
use demolition_app.Survey.TextField.{
  Text, TextField, FieldEvent, change, focus, submit, skipped, is_blank, update, set_text, hand_in,
  on_key, on_focus, on_click, on_skip, on_clear, enable,
}

pub data Input : Type 0 where
  typed : Text → Input
  key : ℕ → Input
  focused clicked skips clears : Input

module _ (accepts : Text → Bool) where
  pub step : Input → TextField → TextField
  unfolding set_text on_key on_focus on_click on_skip on_clear
  step (typed text) f = set_text accepts text f
  step (key code) f = on_key accepts code f
  step focused f = on_focus accepts f
  step clicked f = on_click accepts f
  step skips f = on_skip accepts f
  step clears f = on_clear accepts f

  pub run : List Input → TextField → TextField
  run [] f = f
  run (i ∷ is) f = run is (step i f)

  -- The text of every `submit` is accepted, or is the one that stands for a skipped question.
  pub Submits : List FieldEvent → Type 0
  Submits [] = Unit
  Submits (change ∷ es) = Submits es
  Submits (focus ∷ es) = Submits es
  Submits (submit text ∷ es) = ((accepts text ≡ true) ⊎ (text ≡ skipped)) × Submits es

  Submits-append : (es fs : List FieldEvent) → Submits es → Submits fs → Submits (es ++ fs)
  unfolding Submits
  Submits-append [] fs p q = q
  Submits-append (change ∷ es) fs p q = Submits-append es fs p q
  Submits-append (focus ∷ es) fs p q = Submits-append es fs p q
  Submits-append (submit text ∷ es) fs (h, p) q = (h, Submits-append es fs p q)

  -- The button is enabled exactly for an accepted text, and only such texts were handed in, or
  -- "skipped".
  pub record IsSound (f : TextField) : Type 0 where
    pub button : f.has_button ≡ true → f.enabled ≡ accepts f.text
    pub handed : Submits f.events

  set_text-IsSound : (text : Text) (f : TextField) → IsSound f → IsSound (set_text accepts text f)
  unfolding set_text update Submits
  set_text-IsSound text f s = record {
    button = λ b. ground (arith, b);
    handed = Submits-append f.events (change ∷ []) s.handed tt;
  }

  hand_in-IsSound :
      (f : TextField)
      → (accepts f.text ≡ true) ⊎ (f.text ≡ skipped)
      → IsSound f
      → IsSound (hand_in accepts f)
  unfolding hand_in Submits
  hand_in-IsSound f h s = record {
    button = s.button;
    handed = Submits-append f.events (submit f.text ∷ []) s.handed (h, tt);
  }

  skip-IsSound :
      (f : TextField) → IsSound f → IsSound (hand_in accepts (set_text accepts skipped f))
  unfolding set_text update
  skip-IsSound f s =
      hand_in-IsSound (set_text accepts skipped f) (inr refl) (set_text-IsSound skipped f s)

  step-IsSound : (i : Input) (f : TextField) → IsSound f → IsSound (step i f)
  unfolding step on_key on_focus on_click on_skip on_clear Submits
  step-IsSound (typed text) f s = set_text-IsSound text f s
  step-IsSound (key code) f s =
      if_cases IsSound
        ((f.modern || f.has_button && not f.is_area)
          && (code == 13 || code == 3)
          && (f.has_button && f.enabled)
          && accepts f.text)
        _ _ (λ e. hand_in-IsSound f (inl (ground (arith, e))) s) (λ _. s)
  step-IsSound focused f s = record {
    button = λ b. ground (arith, b);
    handed = Submits-append f.events (focus ∷ []) s.handed tt;
  }
  step-IsSound clicked f s =
      if_cases IsSound (f.has_button && f.enabled) _ _
        (λ e.
          if_elim IsSound (f.skips_blank && is_blank f.text) _ _ (skip-IsSound f s)
            (hand_in-IsSound f (inl (ground (arith, e, s.button))) s))
        (λ _. s)
  step-IsSound skips f s = skip-IsSound f s
  step-IsSound clears f s = set_text-IsSound [] f s

  -- Once the button of a field was enabled or not for its text, then whatever is typed, pressed,
  -- clicked or skipped, it is enabled exactly for an accepted text, and each text that was handed in
  -- is an accepted one or "skipped".
  pub run-IsSound :
      (is : List Input) (f : TextField) → f.events ≡ [] → IsSound (run is (enable accepts f))
  unfolding run enable Submits
  run-IsSound is f e =
      sound is (enable accepts f)
        (record { button = λ b. ground (arith, b); handed = subst Submits (sym e) tt })
    where
      sound : (js : List Input) (g : TextField) → IsSound g → IsSound (run js g)
      sound [] g s = s
      sound (j ∷ js) g s = sound js (step j g) (step-IsSound j g s)
