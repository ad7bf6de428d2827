-- ===== src/Prompt/Animation/Examples.antt =====
-- An animation of 300 milliseconds that is paused.
use demolition_app.Base.{ℕ, true, false, List, [], ◌∷◌}
use demolition_app.Prompt.Animation.{Animation, playing}
use demolition_app.Prompt.Animation.Progress.{Input, call_play, call_pause, frame}

abbrev inputs : List (ℕ × Input)
inputs = (1000, call_play false) ∷ (1020, frame) ∷ (1040, call_pause) ∷ (900, call_play false) ∷ []

abbrev moving : Animation
moving = record {
  state = playing;
  start = 1000;
  before = 0;
  elapsed = 20;
  duration = 300;
  registered = true;
  sent = [];
}
