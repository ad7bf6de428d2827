-- ===== src/Survey/Touch/Taps.antt =====
-- One click for each tap.
use demolition_app.Base.Int.{ℤ}
use demolition_app.Base.{
  ◌≡◌, refl, ◌∙◌, ap, false, ◌||◌, Option, none, some, List, [], ◌∷◌, ◌++◌, All,
}
use demolition_app.Survey.Touch.{
  Element, Touch, Effect, mousedown, mouseup, click, TouchState, is_far, moved, tap, tap_some,
  on_start, on_move, on_end, on_mouse, active_after, is_click, Input, start, move, end_touch, mouse,
  step, run,
}

-- The moves of a finger, each close to where it started.
abbrev pub moves : List (ℤ × ℤ) → List Input
moves [] = []
moves ((x, y) ∷ ps) = move x y ∷ moves ps

abbrev pub IsNear : ℤ → ℤ → ℤ × ℤ → Type 0
IsNear x y p = is_far x p.0 || is_far y p.1 ≡ false

run-append : (is js : List Input) (s : TouchState) → run (is ++ js) s ≡ run js (run is s)
unfolding run
run-append [] js s = refl
run-append (i ∷ is) js s = run-append is js (step i s)

moved-near : (t : Touch) (x y : ℤ) → IsNear t.x t.y (x, y) → moved x y (some t) ≡ some t
unfolding moved
moved-near t x y n = rw n refl

run-moves :
    (t : Touch) (active : Option Element) (effects : List Effect) (ps : List (ℤ × ℤ))
    → All (IsNear t.x t.y) ps
    → run (moves ps) (record { touch = some t; active = active; effects = effects })
      ≡ record { touch = some t; active = active; effects = effects }
unfolding run step on_move
run-moves t active effects [] n = refl
run-moves t active effects ((x, y) ∷ ps) (n, ns) =
    ap
      (λ (o : Option Touch).
        run (moves ps) (record { touch = o; active = active; effects = effects }))
      (moved-near t x y n)
    ∙ run-moves t active effects ps ns

-- A finger that stays within two units of where it touched an element makes one press, one release
-- and one click there, besides what it does to the focus; the press, the release and the click that the
-- browser makes of it later reach no listener; and then there is no touch.
run-tap :
    (e : Element) (x y : ℤ) (ps : List (ℤ × ℤ)) (s : TouchState)
    → All (IsNear x y) ps
    → run
        (start e x y ∷ (moves ps ++ end_touch ∷ mouse mousedown ∷ mouse mouseup ∷ mouse click ∷ []))
        s
      ≡ record {
        touch = none;
        active = active_after s.active (some (record { target = e; x = x; y = y }));
        effects = s.effects ++ tap s.active (record { target = e; x = x; y = y });
      }
unfolding run step on_start on_end on_mouse tap_some is_click
run-tap e x y ps s n =
    let t : Touch = record { target = e; x = x; y = y } in
    run-append (moves ps) (end_touch ∷ mouse mousedown ∷ mouse mouseup ∷ mouse click ∷ []) _
    ∙ ap (run (end_touch ∷ mouse mousedown ∷ mouse mouseup ∷ mouse click ∷ []))
        (run-moves t s.active s.effects ps n)
