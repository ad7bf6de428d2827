-- ===== src/Survey/DropDown/Opening.antt =====
-- How long a menu stays open, and what is handed on.
use demolition_app.Base.{
  ℕ, ◌-◌, ◌<◌, ◌≡◌, Bool, true, false, not, ltb, ◌&&◌, ◌||◌, if◌then◌else◌, if_cases, if_elim,
  Option, none, some, List, [], ◌∷◌, All, arith,
}
use demolition_app.Survey.DropDown.{
  DropDown, set_open, is_none, xor, hand_on, on_action, on_submit, Input, entered, toggled, picked,
  submitted, step, run,
}

-- Where no row is chosen, a closed menu that the pointer or the focus opened after time 0 is still open
-- after an action that is to close it exactly when less than half a second has passed.
toggled-entered :
    (m : DropDown) (now later : ℕ)
    → m.opened ≡ false
    → m.enabled ≡ true
    → m.chosen ≡ none
    → 0 < now
    → (run (entered now ∷ toggled false later ∷ []) m).opened ≡ ltb (later - now) 500
unfolding run step set_open is_none xor
toggled-entered m now later o e c p = rw o (rw e (rw c (ground (arith, p))))

abbrev IsRow : Option ℕ → Type 0
IsRow none = ⊥
IsRow (some n) = Unit

-- A button that works has a row to hand on, and only rows were handed on.
pub record HasRow (m : DropDown) : Type 0 where
  pub ready : m.has_button && not m.button_disabled ≡ true → IsRow m.chosen
  pub rows : All IsRow m.answers

set_open-HasRow :
    (opens by_action : Bool) (now : ℕ) (m : DropDown)
    → HasRow m
    → HasRow (set_open opens by_action now m)
unfolding set_open
set_open-HasRow opens by_action now m₀ g =
    let stamped = not m₀.opened && opens && not by_action in
    let m : DropDown = record m₀ { last_opened = if stamped then now else m₀.last_opened } in
    if_elim HasRow
      (xor m₀.opened opens && m₀.enabled && (not opens || by_action || is_none m₀.chosen)) _ _
      (if_elim HasRow
        (by_action && not opens && ltb 0 m.last_opened && ltb (now - m₀.last_opened) 500) m
        (record m { opened = opens }) (record { ready = g.ready; rows = g.rows })
        (record { ready = g.ready; rows = g.rows }))
      g

step-HasRow : (i : Input) (m : DropDown) → HasRow m → HasRow (step i m)
unfolding step on_action on_submit hand_on
step-HasRow (entered now) m g = set_open-HasRow true false now m g
step-HasRow (toggled opens now) m g = set_open-HasRow opens true now m g
step-HasRow (picked row) m g =
    if_elim HasRow m.has_button _ _ (record { ready = λ _. tt; rows = g.rows })
      (record { ready = λ _. tt; rows = (tt, g.rows) })
step-HasRow submitted m g =
    if_cases HasRow (m.has_button && not m.button_disabled) _ _
      (λ e. record { ready = g.ready; rows = (g.ready e, g.rows) }) (λ _. g)

-- If it was so before, then whatever is opened, picked and handed in, the button works only once a row
-- is chosen, and only rows are handed on.
run-HasRow : (is : List Input) (m : DropDown) → HasRow m → HasRow (run is m)
unfolding run
run-HasRow [] m g = g
run-HasRow (i ∷ is) m g = run-HasRow is (step i m) (step-HasRow i m g)
