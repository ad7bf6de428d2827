-- ===== src/Survey/Video/Answers.antt =====
-- What the video question does with the events of its player.
pub mod Quiet
use Prim.Native.String.{◌++◌ as str_append}
use demolition_app.Base.Int.{ℤ, pos, negsuc, int_eqb}
use demolition_app.Base.{
  ℕ, ◌≡◌, ◌≢◌, refl, ap, ◌∙◌, Bool, true, false, not, ◌&&◌, ◌||◌, ◌==◌, ◌+◌, if◌then◌else◌, String,
  str_eq, Option, none, some, List, [], ◌∷◌, ◌++◌, All, if_elim, if_cases, arith,
}
use demolition_app.Survey.Video.{
  Player, Timings, Location, VideoEvent, viewed, failed, reset, MessageType, playback_ended,
  playback_error, initializing, yt_script_loaded, yt_script_error, ready, unknown, is_unset,
  on_message, on_load, on_timeout, on_reload, is_trusted, receive, report, verdict,
  note_initializing, note_script_loaded, note_script_error, note_timeout, report_some, judge,
  show_reload, show_error, disarm, arm, load_frame, elapsed, new_timings, become_ready, is_early,
  is_set,
}

-- An answer below the video: whether it screens the user in, and whether it is hidden.
pub record Answer : Type 0 where
  pub screen_in : Bool
  pub hidden : Bool

-- How often the text stands in the list.
abbrev pub matches : List String → String → ℕ
matches [] answer = 0
matches (t ∷ ts) answer = (if str_eq answer t then 1 else 0) + matches ts answer

-- Whether the template gives the answer the class `screen-in`: it gives it once for each threshold
-- answer that is the same, so when two are the class has another name.
pub screens_in : List String → String → Bool
screens_in [] answer = true
screens_in (t ∷ ts) answer = matches (t ∷ ts) answer == 1

-- The answers as the template draws them.
pub draw_answers : List String → List String → List Answer
unfolding screens_in
draw_answers threshold [] = []
draw_answers threshold (answer ∷ answers) =
    record { screen_in = screens_in threshold answer; hidden = true }
    ∷ draw_answers threshold answers

-- `Fr`, `pr` and `qr` on one answer.
pub show_answer : VideoEvent → Answer → Answer
show_answer viewed a = record a { hidden = false }
show_answer failed a = record a { hidden = a.screen_in }
show_answer reset a = record a { hidden = true }

pub show_answers : VideoEvent → List Answer → List Answer
unfolding show_answer
show_answers e [] = []
show_answers e (a ∷ answers) = show_answer e a ∷ show_answers e answers

pub hear : List VideoEvent → List Answer → List Answer
unfolding show_answers
hear [] answers = answers
hear (e ∷ es) answers = hear es (show_answers e answers)

pub data Input : Type 0 where
  message : String → MessageType → Input
  load timeout reload : Input

-- The question: its player and its answers.
pub record VideoQuestion : Type 0 where
  pub player : Player
  pub answers : List Answer

-- The timer calls only while it is set.
pub on_input : Location → String → Input → ℕ → Player → Player
unfolding on_message on_load on_timeout on_reload
on_input loc path (message origin type) now p = on_message origin type now p
on_input loc path load now p = on_load now p
on_input loc path timeout now p = if p.pending then on_timeout now p else p
on_input loc path reload now p = on_reload loc path now p

-- The question hears what its player dispatches.
pub deliver : Player → List Answer → VideoQuestion
unfolding hear
deliver p answers = record { player = record p { events = [] }; answers = hear p.events answers }

pub step : Location → String → ℕ → Input → VideoQuestion → VideoQuestion
unfolding on_input deliver
step loc path now i q = deliver (on_input loc path i now q.player) q.answers

pub run : Location → String → List (ℕ × Input) → VideoQuestion → VideoQuestion
unfolding step
run loc path [] q = q
run loc path ((now, i) ∷ is) q = run loc path is (step loc path now i q)

-- While the timer is set nothing was heard of the player since it was loaded; and the video is never
-- marked as loaded and as failed at once.
pub record IsWaiting (p : Player) : Type 0 where
  pub waits :
      p.pending ≡ true
      → is_unset p.timings.player_initializing
          && is_unset p.timings.yt_script_loaded
          && is_unset p.timings.yt_script_error
          && is_unset p.timings.player_ready
        ≡ true
  pub exclusive : p.success && p.failure ≡ false

report-IsWaiting : (text : String) (p : Player) → IsWaiting p → IsWaiting (report text p)
unfolding report
report-IsWaiting text p w = record { waits = w.waits; exclusive = w.exclusive }

show_reload-IsWaiting : (b : Bool) (p : Player) → IsWaiting p → IsWaiting (show_reload b p)
unfolding show_reload
show_reload-IsWaiting b p w = record { waits = w.waits; exclusive = w.exclusive }

show_error-IsWaiting : (c : String) (p : Player) → IsWaiting p → IsWaiting (show_error c p)
unfolding show_error
show_error-IsWaiting c p w = record { waits = w.waits; exclusive = refl }

report_some-IsWaiting :
    (text : Option String) (p : Player) → IsWaiting p → IsWaiting (report_some text p)
unfolding report_some
report_some-IsWaiting none p w = w
report_some-IsWaiting (some text) p w = report-IsWaiting text p w

-- Once the timer is not set, nothing is awaited.
idle : (p : Player) → p.pending ≡ false → p.success && p.failure ≡ false → IsWaiting p
idle p e x = record { waits = λ h. absurd (ground (arith, e, h)); exclusive = x }

receive-IsWaiting :
    (type : MessageType) (now : ℕ) (p : Player) → IsWaiting p → IsWaiting (receive type now p)
unfolding receive become_ready disarm show_reload judge note_initializing note_script_loaded
    note_script_error
receive-IsWaiting playback_ended now p w = record { waits = w.waits; exclusive = w.exclusive }
receive-IsWaiting playback_error now p w =
    report-IsWaiting _ _ (show_reload-IsWaiting true _ (show_error-IsWaiting _ p w))
receive-IsWaiting initializing now p w = idle _ refl w.exclusive
receive-IsWaiting yt_script_loaded now p w = idle _ refl w.exclusive
receive-IsWaiting yt_script_error now p w = report-IsWaiting _ _ (
    show_reload-IsWaiting true _ (
      show_error-IsWaiting _ (note_script_error now p)
        (idle (note_script_error now p) refl w.exclusive)))
receive-IsWaiting ready now p w =
    report_some-IsWaiting (verdict (become_ready now p).timings) (become_ready now p)
      (idle (become_ready now p) refl refl)
receive-IsWaiting (unknown type) now p w = report-IsWaiting _ p w

on_input-IsWaiting :
    (loc : Location) (path : String) (i : Input) (now : ℕ) (p : Player)
    → IsWaiting p
    → IsWaiting (on_input loc path i now p)
unfolding on_input on_message on_load on_timeout on_reload note_timeout disarm load_frame arm report
    show_reload new_timings
on_input-IsWaiting loc path (message origin type) now p w =
    if_elim IsWaiting (is_trusted origin p) _ _ (receive-IsWaiting type now p w)
      (record { waits = w.waits; exclusive = w.exclusive })
on_input-IsWaiting loc path load now p w = record { waits = λ h. h; exclusive = w.exclusive }
on_input-IsWaiting loc path timeout now p w =
    if_elim IsWaiting p.pending _ _
      (if_elim IsWaiting (is_unset p.timings.player_ready) _ _
        (report-IsWaiting _ _ (
          show_reload-IsWaiting true _ (
            show_error-IsWaiting _ (note_timeout now p)
              (idle (note_timeout now p) refl w.exclusive))))
        (idle (note_timeout now p) refl w.exclusive))
      w
on_input-IsWaiting loc path reload now p w = record { waits = λ h. refl; exclusive = refl }

-- If it was so before, then after any messages, loads, timeouts and reloads of a video question the
-- timer is set only while nothing was heard of the player since it was last loaded, and the video is
-- not marked both as loaded and as failed.
run-IsWaiting :
    (loc : Location) (path : String) (is : List (ℕ × Input)) (q : VideoQuestion)
    → IsWaiting q.player
    → IsWaiting (run loc path is q).player
unfolding run step deliver
run-IsWaiting loc path [] q w = w
run-IsWaiting loc path ((now, i) ∷ is) q w =
    run-IsWaiting loc path is _ (rest (on_input-IsWaiting loc path i now q.player w))
  where
    rest : {p : Player} → IsWaiting p → IsWaiting (record p { events = [] })
    rest v = record { waits = v.waits; exclusive = v.exclusive }
