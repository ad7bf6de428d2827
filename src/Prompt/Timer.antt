-- ===== src/Prompt/Timer.antt =====
-- The timer `vf`, which ticks at an interval until it is stopped.
pub mod Ticks
mod Examples
use demolition_app.Base.{
  ℕ, ◌+◌, ◌-◌, ◌*◌, Bool, true, false, not, ◌&&◌, ◌||◌, ◌==◌, Option, some, none, ltb,
  if◌then◌else◌,
}

-- `ae`, `enabled`, `Y` (the time that `setTimeout` was given, if it runs), `tk`, and the number of
-- times that "tick" was dispatched.
pub record Timer : Type 0 where
  pub interval : ℕ
  pub enabled : Bool
  pub pending : Option ℕ
  pub last : ℕ
  pub ticks : ℕ

-- `new vf`; an interval of 0 becomes 1.
pub new_timer : ℕ → ℕ → Timer
new_timer now interval = record {
  interval = if interval == 0 then 1 else interval;
  enabled = false;
  pending = none;
  last = now;
  ticks = 0;
}

abbrev pub is_pending : Timer → Bool
is_pending t = elim t.pending [ none ↦ false | some _ ↦ true ]

-- `start`
pub start : ℕ → Timer → Timer
start now t =
    if is_pending t
    then record t { enabled = true }
    else record t { enabled = true; pending = some t.interval; last = now }

-- `stop`
pub stop : Timer → Timer
stop t = record t { enabled = false; pending = none }

-- `setInterval`
pub set_interval : ℕ → ℕ → Timer → Timer
unfolding start stop
set_interval now interval t₀ =
    let t = record t₀ { interval = interval } in
    if is_pending t && t.enabled then start now (stop t) else if is_pending t then stop t else t

-- `0<a&&a<.8*this.ae`, multiplied by 5.
pub too_early : ℕ → ℕ → Bool
too_early elapsed interval = ltb 0 elapsed && ltb (5 * elapsed) (4 * interval)

-- `au`: the timeout ran out at `now`; `stops` tells that a listener of "tick" stops the timer.
pub run_out : ℕ → Bool → Timer → Timer
unfolding stop too_early
run_out now stops t =
    let ticked = record t { pending = none; ticks = t.ticks + 1 } in
    if t.enabled
    then if ltb t.last now && too_early (now - t.last) t.interval
      then record t { pending = some (t.interval - (now - t.last)) }
      else if stops
      then stop ticked
      else record ticked { pending = some t.interval; last = now }
    else t
