-- ===== src/Survey/Site/Locked.antt =====
-- When the page behind the survey can be scrolled.
use demolition_app.Base.{
  ℕ, zero, suc, ◌∷◌, ◌≡◌, refl, Bool, true, false, not, ◌&&◌, ◌||◌, ◌==◌, if◌then◌else◌, if_elim,
  if_cases, ltb, List, [], ◌∷◌, arith,
}
use demolition_app.Survey.Sequence.{Prompt, send, send_partial, close, on_unload}
use demolition_app.Survey.Site.{
  Site, covers_page, measure, on_resize, toggle, toggle_if, on_drawn, hide, send_closed, on_close,
  on_escape, on_leave, on_close_call, give_thanks, Input, toggled, drawn, finished, left,
  closed_with, escaped, close_called, resized, step, run,
}

-- The page is kept from scrolling only by a survey that is not closed, and where its size is given, only
-- by one that covers the page and is open.
pub record IsFree (s : Site) : Type 0 where
  pub open_only :
      s.sized ≡ true
      → s.locked ≡ true
      → not s.collapsed && (s.modal && s.modern && not s.no_shadow) ≡ true
  pub styled_only : s.locked ≡ true → s.styled ≡ true
  pub closed_only : s.prompt.closed ≡ true → s.locked ≡ false

toggle-IsFree : (s : Site) → s.prompt.closed ≡ false → IsFree s → IsFree (toggle s)
unfolding toggle measure covers_page
toggle-IsFree s c f = record {
  open_only = λ z h. ground (arith, z, h, f.open_only);
  styled_only = λ h. ground (arith, h, f.styled_only);
  closed_only = λ h. absurd (ground (arith, h, c));
}

hide-IsFree : (s : Site) → IsFree s → IsFree (hide s)
unfolding hide close covers_page
hide-IsFree s f = record {
  open_only = λ z h. ground (arith, z, h, f.open_only);
  styled_only = λ h. ground (arith, h, f.styled_only);
  closed_only = λ _. ground (arith, f.styled_only);
}

send_closed-IsFree : (s : Site) → IsFree s → IsFree (send_closed s)
unfolding send_closed send covers_page
send_closed-IsFree s f =
    if_elim IsFree (ltb 0 s.prompt.answered) _ _
      (record { open_only = f.open_only; styled_only = f.styled_only; closed_only = f.closed_only })
      (record { open_only = f.open_only; styled_only = f.styled_only; closed_only = f.closed_only })

on_close-IsFree : (key : ℕ) (s : Site) → IsFree s → IsFree (on_close key s)
unfolding on_close
on_close-IsFree key s f =
    let h : IsFree (hide s) = hide-IsFree s f in
    if_elim IsFree (key == 0 || key == 13 || key == 32 || key == 27) _ _
      (if_elim IsFree s.prompt.active _ _ (send_closed-IsFree (hide s) h) h) f

on_leave-IsFree : (s : Site) → IsFree s → IsFree (on_leave s)
unfolding on_leave on_unload send_partial send covers_page
on_leave-IsFree s f =
    if_elim IsFree (ltb 0 s.prompt.answered) _ _
      (record {
        open_only = f.open_only;
        styled_only = f.styled_only;
        closed_only =
            if_elim (λ (p : Prompt). p.closed ≡ true → s.locked ≡ false)
              (s.prompt.active && not s.prompt.left) _ _ f.closed_only f.closed_only;
      })
      f

toggle_if-IsFree :
    (b : Bool) (s : Site) → s.prompt.closed ≡ false → IsFree s → IsFree (toggle_if b s)
unfolding toggle_if
toggle_if-IsFree true s c f = toggle-IsFree s c f
toggle_if-IsFree false s c f = f

measure-IsFree : (s : Site) → IsFree s → IsFree (measure s)
unfolding measure
measure-IsFree s f = record {
  open_only = λ z h. ground (arith, z, f.open_only z h);
  styled_only = f.styled_only;
  closed_only = f.closed_only;
}

on_drawn-IsFree : (s : Site) → s.prompt.closed ≡ false → IsFree s → IsFree (on_drawn s)
unfolding on_drawn covers_page measure
on_drawn-IsFree s₀ c f₀ =
    let m = measure s₀ in
    let f = measure-IsFree s₀ f₀ in
    let begins = m.begins_collapsed || m.modal && not m.begins_open && not m.webview in
    let s : Site = record m { begins_collapsed = if m.first then begins else m.begins_collapsed } in
    let t : IsFree (toggle_if (s.first && not s.collapsed && s.begins_collapsed) s) =
      toggle_if-IsFree _ s c (record {
        open_only = f.open_only;
        styled_only = f.styled_only;
        closed_only = f.closed_only;
      }) in
    record { open_only = t.open_only; styled_only = t.styled_only; closed_only = t.closed_only }

on_resize-IsFree : (b : Bool) (s : Site) → IsFree s → IsFree (on_resize b s)
unfolding on_resize
on_resize-IsFree b s f =
    measure-IsFree (record s { small = b })
      (record { open_only = f.open_only; styled_only = f.styled_only; closed_only = f.closed_only })

step-IsFree : (i : Input) (s : Site) → IsFree s → IsFree (step i s)
unfolding step on_escape on_close_call give_thanks send covers_page
step-IsFree toggled s f = if_cases IsFree s.prompt.closed _ _ (λ _. f) (λ c. toggle-IsFree s c f)
step-IsFree drawn s f = if_cases IsFree s.prompt.closed _ _ (λ _. f) (λ c. on_drawn-IsFree s c f)
step-IsFree (resized b) s f =
    if_cases IsFree s.prompt.closed _ _ (λ _. f) (λ _. on_resize-IsFree b s f)
step-IsFree finished s f = record {
  open_only = f.open_only;
  styled_only = f.styled_only;
  closed_only = f.closed_only;
}
step-IsFree left s f = on_leave-IsFree s f
step-IsFree (closed_with key) s f = on_close-IsFree key s f
step-IsFree (escaped key) s f =
    if_elim IsFree (s.closeable && key == 27) _ _ (on_close-IsFree key s f) f
step-IsFree (close_called asked) s f =
    let h : IsFree (hide s) = hide-IsFree s f in
    if_elim IsFree s.prompt.active _ _
      (if_elim IsFree asked _ _
        (record {
          open_only = h.open_only;
          styled_only = h.styled_only;
          closed_only = h.closed_only;
        })
        (on_leave-IsFree (hide s) h))
      f

-- If it was so before, then whatever the user, the window and the page do, the page behind is no longer
-- kept from scrolling once the survey is closed, and where the survey's size is given, it is kept from
-- scrolling only while the survey covers it and is open.
pub run-IsFree : (is : List Input) (s : Site) → IsFree s → IsFree (run is s)
unfolding run
run-IsFree [] s f = f
run-IsFree (i ∷ is) s f = run-IsFree is (step i s) (step-IsFree i s f)

-- When the page closes the survey and not the user, nothing is sent, however many questions were
-- answered: the survey is no longer active when it would send the answers.
pub on_close_call-silent : (s : Site) → (on_close_call false s).prompt.beacons ≡ s.prompt.beacons
unfolding on_close_call on_leave on_unload hide close
on_close_call-silent s =
    let same : Site → Type 0 = λ t. t.prompt.beacons ≡ s.prompt.beacons in
    if_elim same s.prompt.active _ _ (if_elim same (ltb 0 s.prompt.answered) _ _ refl refl) refl

-- The survey is collapsed or opened so many times.
abbrev pub toggles : ℕ → List Input
toggles zero = []
toggles (suc n) = toggled ∷ toggles n

-- A survey whose size is not given covers the page no more, but keeps it from scrolling.
record IsStuck (s : Site) : Type 0 where
  unsized : s.sized ≡ false
  wide : s.small ≡ false
  locked : s.locked ≡ true
  there : s.prompt.closed ≡ false

toggle-IsStuck : (s : Site) → IsStuck s → IsStuck (toggle s)
unfolding toggle measure covers_page
toggle-IsStuck s k = record {
  unsized = k.unsized;
  wide = k.wide;
  locked = ground (arith, k.unsized, k.wide, k.locked);
  there = k.there;
}

run-IsStuck : (n : ℕ) (s : Site) → IsStuck s → (run (toggles n) s).locked ≡ true
unfolding run step
run-IsStuck zero s k = k.locked
run-IsStuck (suc n) s k =
    if_cases (λ t. (run (toggles n) t).locked ≡ true) s.prompt.closed _ _
      (λ e. absurd (ground (arith, e, k.there)))
      (λ _. run-IsStuck n (toggle s) (toggle-IsStuck s k))

-- When a survey whose size is not given keeps the page from scrolling, and the window grows so that the
-- survey covers the page no more, the page stays as it is however often the survey is collapsed or opened.
pub resized-toggled :
    (n : ℕ) (s : Site)
    → s.sized ≡ false
    → s.prompt.closed ≡ false
    → s.locked ≡ true
    → (run (resized false ∷ toggles n) s).locked ≡ true
unfolding run step on_resize measure
resized-toggled n s z c l =
    if_cases (λ t. (run (toggles n) t).locked ≡ true) s.prompt.closed _ _
      (λ e. absurd (ground (arith, e, c)))
      (λ _.
        run-IsStuck n (on_resize false s)
          (record { unsized = z; wide = refl; locked = l; there = c }))
