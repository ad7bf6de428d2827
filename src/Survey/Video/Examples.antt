-- ===== src/Survey/Video/Examples.antt =====
-- Runs of the player and of its question.
use demolition_app.Base.{ℕ, ◌≡◌, refl, true, false, List, [], ◌∷◌}
use demolition_app.Base.Int.{negsuc}
use demolition_app.Survey.Video.{
  Player, Location, new_timings, playback_ended, yt_script_error, start,
}
use demolition_app.Survey.Video.Answers.{Input, message, load, timeout, VideoQuestion, run}
use demolition_app.Survey.Video.Answers.Quiet.{run-answers}

abbrev page : Location
page = record { protocol = "https:"; hostname = "example.org"; port = "8080" }

abbrev player : Player
player = record {
  video_id = "abcdefghijk";
  host = "//survey.g.doubleclick.net";
  timings = new_timings 0;
  started = negsuc 0;
  pending = false;
  silent = true;
  message = "";
  success = false;
  failure = false;
  reload_hidden = true;
  src = "";
  events = [];
  reports = [];
}

abbrev question : VideoQuestion
question = record {
  player = start page "" 1000 player;
  answers =
      record { screen_in = true; hidden = true } ∷ record { screen_in = false; hidden = true } ∷ [];
}

-- The frame loads and times out, another host says that the playback ended, and the script fails.
abbrev trouble : List (ℕ × Input)
trouble =
    (2000, load)
    ∷ (7000, timeout)
    ∷ (7500, message "https://example.org" playback_ended)
    ∷ (8000, message "https://survey.g.doubleclick.net" yt_script_error)
    ∷ []

question_src :
    question.player.src
    ≡ "//survey.g.doubleclick.net/video?id=abcdefghijk&origin=https://example.org:8080"
unfolding start
question_src = refl

run-answers_example : (run page "" trouble question).answers ≡ question.answers
unfolding start new_timings
run-answers_example =
    run-answers page "" trouble question (refl, (refl, (refl, (refl, tt)))) refl refl refl
