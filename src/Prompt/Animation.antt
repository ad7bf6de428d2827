-- ===== src/Prompt/Animation.antt =====
-- The animation `Wj`: how it plays, pauses and stops, by the clock. How its coordinates follow its
-- progress is left out, and so is a duration of 0, whose progress is no number at first.
pub mod Progress
mod Examples
use demolition_app.Base.{
  ℕ, ◌+◌, ◌-◌, ◌==◌, Bool, true, false, not, ◌&&◌, ◌||◌, List, [], ◌∷◌, ltb, leb, if◌then◌else◌,
}

-- `D`: 0, -1 and 1.
pub data State : Type 0 where
  stopped paused playing : State

pub is_stopped : State → Bool
is_stopped stopped = true
is_stopped paused = false
is_stopped playing = false

pub is_paused : State → Bool
is_paused stopped = false
is_paused paused = true
is_paused playing = false

pub is_playing : State → Bool
is_playing stopped = false
is_playing paused = false
is_playing playing = true

-- The events that `lb` dispatches.
pub data AnimationEvent : Type 0 where
  begins plays resumes animates pauses stops finishes ends : AnimationEvent

-- `D`; `startTime`, which is the time `start` less `before`; `Hb`, which is `elapsed` by `duration`;
-- whether it is in `Pj`; and the events that were dispatched, the newest first. `endTime` is
-- always `duration` after `startTime`.
pub record Animation : Type 0 where
  pub state : State
  pub start : ℕ
  pub before : ℕ
  pub elapsed : ℕ
  pub duration : ℕ
  pub registered : Bool
  pub sent : List AnimationEvent

-- `new Wj`
pub new_animation : ℕ → Animation
new_animation duration = record {
  state = stopped;
  start = 0;
  before = 0;
  elapsed = 0;
  duration = duration;
  registered = false;
  sent = [];
}

abbrev pub min : ℕ → ℕ → ℕ
min m n = if leb m n then m else n

-- The start of `Uj`: the clock may have gone back behind the start.
pub advance : ℕ → Animation → Animation
advance now a =
    let back = ltb (now + a.before) a.start in
    record a {
      start = if back then now else a.start;
      before = if back then 0 else a.before;
      elapsed = if back then min a.duration 0 else min a.duration (now + a.before - a.start);
    }

-- The end of `Uj`.
pub conclude : Animation → Animation
unfolding is_playing
conclude a =
    let finished = record a {
      state = stopped;
      registered = false;
      sent = ends ∷ finishes ∷ a.sent;
    } in
    let animated = record a { sent = animates ∷ a.sent } in
    if a.elapsed == a.duration then finished else if is_playing a.state then animated else a

-- `Uj`
pub cycle : ℕ → Animation → Animation
unfolding advance conclude
cycle now a = conclude (advance now a)

-- The events of `play`, for whether it begins and whether it resumes.
pub play_events : Bool → Bool → List AnimationEvent → List AnimationEvent
play_events begin resume sent =
    let s = plays ∷ (if begin then begins ∷ sent else sent) in if resume then resumes ∷ s else s

-- `play` up to the call of `Uj`.
pub begin_play : Bool → ℕ → Animation → Animation
unfolding is_stopped is_paused play_events
begin_play restart now a =
    let elapsed = if restart || is_stopped a.state then 0 else a.elapsed in
    record a {
      state = playing;
      start = now;
      before = if is_paused a.state then elapsed else 0;
      elapsed = elapsed;
      registered = true;
      sent = play_events (elapsed == 0) (is_paused a.state) a.sent;
    }

-- `play`
pub play : Bool → ℕ → Animation → Animation
unfolding is_playing begin_play cycle
play restart now a =
    if is_playing a.state && not restart then a else cycle now (begin_play restart now a)

-- `stop`
pub stop : Bool → Animation → Animation
stop to_end a = record a {
  state = stopped;
  registered = false;
  elapsed = if to_end then a.duration else a.elapsed;
  sent = ends ∷ stops ∷ a.sent;
}

-- `pause`
pub pause : Animation → Animation
unfolding is_playing
pause a =
    if is_playing a.state
    then record a { state = paused; registered = false; sent = pauses ∷ a.sent }
    else a

-- `Sj`: a frame of the animations that are registered.
pub on_frame : ℕ → Animation → Animation
unfolding cycle
on_frame now a = if a.registered then cycle now a else a
