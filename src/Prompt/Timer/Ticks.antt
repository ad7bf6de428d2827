-- ===== src/Prompt/Timer/Ticks.antt =====
-- When a timer waits, and when it ticks.
use demolition_app.Base.{ℕ, ◌+◌, ◌-◌, ◌≡◌, refl, Bool, true, some, List, [], ◌∷◌, arith}
use demolition_app.Prompt.Timer.{
  Timer, new_timer, is_pending, start, stop, set_interval, too_early, run_out,
}

pub data Input : Type 0 where
  call_start call_stop : Input
  call_set_interval : ℕ → Input
  call_run_out : Bool → Input

-- One call, at a time.
pub step : ℕ → Input → Timer → Timer
step now call_start t = start now t
step now call_stop t = stop t
step now (call_set_interval n) t = set_interval now n t
step now (call_run_out stops) t = run_out now stops t

pub run : List (ℕ × Input) → Timer → Timer
run [] t = t
run ((now, i) ∷ is) t = run is (step now i t)

-- A timeout runs exactly while the timer is enabled.
pub Waits : Timer → Type 0
Waits t = is_pending t ≡ t.enabled

step-Waits : (now : ℕ) (i : Input) (t : Timer) → Waits t → Waits (step now i t)
unfolding step start stop set_interval run_out Waits
step-Waits now call_start t w = ground (arith, w)
step-Waits now call_stop t w = ground (arith, w)
step-Waits now (call_set_interval n) t w = ground (arith, w)
step-Waits now (call_run_out stops) t w = ground (arith, w)

run-Waits_from : (is : List (ℕ × Input)) (t : Timer) → Waits t → Waits (run is t)
unfolding run
run-Waits_from [] t w = w
run-Waits_from ((now, i) ∷ is) t w = run-Waits_from is (step now i t) (step-Waits now i t w)

-- After any calls a timeout of the timer runs exactly while the timer is enabled.
run-Waits : (is : List (ℕ × Input)) (now interval : ℕ) → Waits (run is (new_timer now interval))
unfolding Waits new_timer
run-Waits is now interval = run-Waits_from is (new_timer now interval) refl

-- An enabled timer whose timeout runs out too early waits for the rest of the interval since its
-- last tick, and does not tick; so its next timeout ends one interval after that tick.
run_out-early :
    (now : ℕ) (stops : Bool) (t : Timer)
    → t.enabled ≡ true
    → too_early (now - t.last) t.interval ≡ true
    → (rest : ℕ) × ((run_out now stops t).pending ≡ some rest)
      × (now + rest ≡ t.last + t.interval)
      × ((run_out now stops t).ticks ≡ t.ticks)
unfolding run_out too_early
run_out-early now stops t on early = (
  t.interval - (now - t.last),
  ground (arith, on, early),
  ground (arith, early),
  ground (arith, on, early),
)
