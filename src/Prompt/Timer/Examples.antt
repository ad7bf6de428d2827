-- ===== src/Prompt/Timer/Examples.antt =====
-- A timer of 100 milliseconds.
use demolition_app.Base.{ℕ, ◌-◌, ◌≡◌, refl, true, false, some, List, [], ◌∷◌}
use demolition_app.Prompt.Timer.{Timer, too_early}
use demolition_app.Prompt.Timer.Ticks.{Input, call_start, call_set_interval, call_run_out}

abbrev calls : List (ℕ × Input)
calls =
    (0, call_start)
    ∷ (100, call_run_out false)
    ∷ (120, call_set_interval 50)
    ∷ (170, call_run_out true)
    ∷ []

abbrev timer : Timer
timer = record { interval = 100; enabled = true; pending = some 100; last = 1000; ticks = 3 }

early : too_early (1040 - 1000) 100 ≡ true
unfolding too_early
early = refl
