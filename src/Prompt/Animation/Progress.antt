-- ===== src/Prompt/Animation/Progress.antt =====
-- How far an animation is.
use demolition_app.Base.{
  ℕ, ◌+◌, ◌≡◌, ◌≤◌, ◌<◌, refl, sym, ◌∙◌, Bool, true, false, not, ◌&&◌, ◌==◌, List, [], ◌∷◌, if_elim,
  if_cases, arith,
}
use demolition_app.Prompt.Animation.{
  State, stopped, paused, playing, is_stopped, is_paused, is_playing, Animation, new_animation, min,
  advance, conclude, cycle, begin_play, play, stop, pause, on_frame,
}

pub data Input : Type 0 where
  call_play : Bool → Input
  call_stop : Bool → Input
  call_pause frame : Input

-- One call, at a time.
pub step : ℕ → Input → Animation → Animation
step now (call_play restart) a = play restart now a
step now (call_stop to_end) a = stop to_end a
step now call_pause a = pause a
step now frame a = on_frame now a

pub run : List (ℕ × Input) → Animation → Animation
run [] a = a
run ((now, i) ∷ is) a = run is (step now i a)

-- The animation is registered for frames exactly while it plays, it is not beyond its end, and at
-- its end it neither plays nor is it paused.
pub record IsSteady (a : Animation) : Type 0 where
  pub registers : a.registered ≡ is_playing a.state
  pub within : a.elapsed ≤ a.duration
  pub unfinished : is_stopped a.state ≡ false → a.elapsed < a.duration

conclude-IsSteady :
    (a : Animation)
    → a.registered ≡ is_playing a.state
    → a.elapsed ≤ a.duration
    → IsSteady (conclude a)
unfolding conclude is_playing is_stopped
conclude-IsSteady a r w =
    if_cases IsSteady (a.elapsed == a.duration) _ _
      (λ e. record { registers = refl; within = w; unfinished = λ h. absurd (ground (arith, h)) })
      (λ e.
        if_elim IsSteady (is_playing a.state) _ _
          (record { registers = r; within = w; unfinished = λ h. ground (arith, e, w) })
          (record { registers = r; within = w; unfinished = λ h. ground (arith, e, w) }))

cycle-IsSteady :
    (now : ℕ) (a : Animation) → a.registered ≡ is_playing a.state → IsSteady (cycle now a)
unfolding cycle advance
cycle-IsSteady now a r = conclude-IsSteady (advance now a) r (ground arith)

step-IsSteady : (now : ℕ) (i : Input) (a : Animation) → IsSteady a → IsSteady (step now i a)
unfolding step begin_play play stop pause on_frame is_playing is_stopped
step-IsSteady now (call_play restart) a s =
    if_elim IsSteady (is_playing a.state && not restart) _ _ s
      (cycle-IsSteady now (begin_play restart now a) refl)
step-IsSteady now (call_stop to_end) a s = record {
  registers = refl;
  within = ground (arith, s.within);
  unfinished = λ h. absurd (ground (arith, h));
}
step-IsSteady now call_pause a s =
    if_cases IsSteady (is_playing a.state) _ _
      (λ e. record {
        registers = refl;
        within = s.within;
        unfinished = λ h. s.unfinished (live a.state e);
      })
      (λ e. s)
  where
    live : (d : State) → is_playing d ≡ true → is_stopped d ≡ false
    live stopped e = absurd (ground (arith, e))
    live paused e = refl
    live playing e = refl
step-IsSteady now frame a s = if_elim IsSteady a.registered _ _ (cycle-IsSteady now a s.registers) s

run-IsSteady_from : (is : List (ℕ × Input)) (a : Animation) → IsSteady a → IsSteady (run is a)
unfolding run
run-IsSteady_from [] a s = s
run-IsSteady_from ((now, i) ∷ is) a s =
    run-IsSteady_from is (step now i a) (step-IsSteady now i a s)

-- Whatever is called and however the clock runs, an animation is registered for frames exactly
-- while it plays, is never beyond its end, and at its end it neither plays nor is it paused.
run-IsSteady : (is : List (ℕ × Input)) (duration : ℕ) → IsSteady (run is (new_animation duration))
unfolding new_animation is_playing is_stopped
run-IsSteady is duration = run-IsSteady_from is (new_animation duration) (record {
  registers = refl;
  within = omega arith;
  unfinished = λ h. absurd (ground (arith, h));
})

-- An animation that plays since a time at which a part of it was over.
record Runs (now part duration : ℕ) (a : Animation) : Type 0 where
  pub plays : a.state ≡ playing
  pub since : a.start ≡ now
  pub after : a.before ≡ part
  pub length : a.duration ≡ duration
  pub registers : a.registered ≡ true

pause_lem :
    (a : Animation)
    → a.state ≡ playing
    → ((pause a).state ≡ paused)
      × ((pause a).elapsed ≡ a.elapsed)
      × ((pause a).duration ≡ a.duration)
unfolding pause is_playing
pause_lem a p =
    if_cases
      (λ (b : Animation). (b.state ≡ paused) × (b.elapsed ≡ a.elapsed) × (b.duration ≡ a.duration))
      (is_playing a.state) _ _ (λ e. (refl, refl, refl)) (λ e. absurd (ground (arith, e, p)))

begin_play-Runs :
    (now part : ℕ) (a : Animation)
    → a.state ≡ paused
    → a.elapsed ≡ part
    → Runs now part a.duration (begin_play false now a)
unfolding begin_play is_paused is_stopped
begin_play-Runs now part a p e = record {
  plays = refl;
  since = refl;
  after = ground (arith, p, e);
  length = refl;
  registers = refl;
}

conclude-Runs :
    (now part duration : ℕ) (a : Animation)
    → Runs now part duration a
    → a.elapsed < duration
    → Runs now part duration (conclude a)
unfolding conclude is_playing
conclude-Runs now part duration a r u =
    if_cases (Runs now part duration) (a.elapsed == a.duration) _ _
      (λ e. absurd (ground (arith, e, u, r.length)))
      (λ e.
        if_elim (Runs now part duration) (is_playing a.state) _ _
          (record {
            plays = r.plays;
            since = r.since;
            after = r.after;
            length = r.length;
            registers = r.registers;
          })
          r)

cycle-Runs :
    (now part duration : ℕ) (a : Animation)
    → Runs now part duration a
    → part < duration
    → Runs now part duration (cycle now a)
unfolding cycle advance
cycle-Runs now part duration a r u =
    conclude-Runs now part duration (advance now a)
      (record {
        plays = r.plays;
        since = ground (arith, r.since, r.after);
        after = ground (arith, r.since, r.after);
        length = r.length;
        registers = r.registers;
      })
      (ground (arith, r.since, r.after, r.length, u))

conclude-elapsed : (a : Animation) → (conclude a).elapsed ≡ a.elapsed
unfolding conclude
conclude-elapsed a =
    if_elim (λ (b : Animation). b.elapsed ≡ a.elapsed) (a.elapsed == a.duration) _ _ refl
      (if_elim (λ (b : Animation). b.elapsed ≡ a.elapsed) (is_playing a.state) _ _ refl refl)

advance-elapsed :
    (now part duration later : ℕ) (a : Animation)
    → Runs now part duration a
    → (advance (now + later) a).elapsed ≡ min duration (part + later)
unfolding advance
advance-elapsed now part duration later a r = ground (arith, r.since, r.after, r.length)

on_frame-Runs :
    (now part duration later : ℕ) (a : Animation)
    → Runs now part duration a
    → (on_frame (now + later) a).elapsed ≡ min duration (part + later)
unfolding on_frame cycle
on_frame-Runs now part duration later a r =
    if_cases (λ (b : Animation). b.elapsed ≡ min duration (part + later)) a.registered _ _
      (λ e.
        conclude-elapsed (advance (now + later) a) ∙ advance-elapsed now part duration later a r)
      (λ e. absurd (ground (arith, e, r.registers)))

play-Runs :
    (now part duration : ℕ) (a : Animation)
    → a.state ≡ paused
    → a.elapsed ≡ part
    → a.duration ≡ duration
    → part < duration
    → Runs now part duration (play false now a)
unfolding play is_playing
play-Runs now part duration a p e d u =
    if_cases (Runs now part duration) (is_playing a.state && not false) _ _
      (λ h. absurd (ground (arith, h, p)))
      (λ h.
        cycle-Runs now part duration (begin_play false now a)
          (rw (sym d) (begin_play-Runs now part a p e)) u)

-- An animation that plays, pauses and plays again goes on where it was: a frame at some time after
-- it plays again finds it that much further, and not beyond its end.
pause-play :
    (now later : ℕ) (a : Animation)
    → a.state ≡ playing
    → a.elapsed < a.duration
    → (on_frame (now + later) (play false now (pause a))).elapsed
      ≡ min a.duration (a.elapsed + later)
pause-play now later a p u =
    let (s, e, d) = pause_lem a p in
    on_frame-Runs now a.elapsed a.duration later (play false now (pause a))
      (play-Runs now a.elapsed a.duration (pause a) s e d u)
