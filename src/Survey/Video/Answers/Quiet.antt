-- ===== src/Survey/Video/Answers/Quiet.antt =====
-- A video question whose answers stay as they are.
use Prim.Native.String.{◌++◌ as str_append}
use demolition_app.Base.{
  ℕ, ◌≡◌, ◌≢◌, refl, ap, ◌∙◌, Bool, true, false, not, ◌||◌, String, str_eq, Option, none, some,
  List, [], ◌∷◌, All, if_elim, if_cases, arith,
}
use demolition_app.Survey.Video.{
  Player, Location, MessageType, playback_ended, playback_error, initializing, yt_script_loaded,
  yt_script_error, ready, unknown, is_unset, on_message, on_load, on_timeout, is_trusted, receive,
  report, verdict, note_initializing, note_script_loaded, note_script_error, note_timeout,
  report_some, judge, show_reload, show_error, disarm, become_ready,
}
use demolition_app.Survey.Video.Answers.{
  Input, message, load, timeout, reload, VideoQuestion, on_input, hear, deliver, step, run,
}

-- Nothing is dispatched, and the user did not ask for the video again.
record IsCalm (host : String) (p : Player) : Type 0 where
  silent_so_far : p.events ≡ []
  first_time : p.timings.reload_count ≡ 0
  same_host : p.host ≡ host

-- Neither does the survey's host say that the playback ended, nor does the user reload.
abbrev pub is_quiet : String → Input → Bool
is_quiet host (message origin playback_ended) =
    not (str_eq origin (str_append "http:" host) || str_eq origin (str_append "https:" host))
is_quiet host reload = false
is_quiet host (message origin type) = true
is_quiet host load = true
is_quiet host timeout = true

module _ {host : String} where
  report-IsCalm : (text : String) (p : Player) → IsCalm host p → IsCalm host (report text p)
  unfolding report
  report-IsCalm text p c = record {
    silent_so_far = c.silent_so_far;
    first_time = c.first_time;
    same_host = c.same_host;
  }

  report_some-IsCalm :
      (text : Option String) (p : Player) → IsCalm host p → IsCalm host (report_some text p)
  unfolding report_some
  report_some-IsCalm none p c = c
  report_some-IsCalm (some text) p c = report-IsCalm text p c

  show_reload-IsCalm : (b : Bool) (p : Player) → IsCalm host p → IsCalm host (show_reload b p)
  unfolding show_reload
  show_reload-IsCalm b p c = record {
    silent_so_far = ground (arith, c.first_time, c.silent_so_far);
    first_time = c.first_time;
    same_host = c.same_host;
  }

  show_error-IsCalm : (text : String) (p : Player) → IsCalm host p → IsCalm host (show_error text p)
  unfolding show_error
  show_error-IsCalm text p c = record {
    silent_so_far = c.silent_so_far;
    first_time = c.first_time;
    same_host = c.same_host;
  }

  -- What an event of the player changes besides.
  alike-IsCalm :
      (p q : Player)
      → IsCalm host p
      → q.events ≡ p.events
      → q.timings.reload_count ≡ p.timings.reload_count
      → q.host ≡ p.host
      → IsCalm host q
  alike-IsCalm p q c e n h = record {
    silent_so_far = e ∙ c.silent_so_far;
    first_time = n ∙ c.first_time;
    same_host = h ∙ c.same_host;
  }

  become_ready-IsCalm : (now : ℕ) (p : Player) → IsCalm host p → IsCalm host (become_ready now p)
  unfolding become_ready disarm show_reload
  become_ready-IsCalm now p c = record {
    silent_so_far = ground (arith, c.first_time, c.silent_so_far);
    first_time = c.first_time;
    same_host = c.same_host;
  }

  receive-IsCalm :
      (type : MessageType) (now : ℕ) (p : Player)
      → type ≢ playback_ended
      → IsCalm host p
      → IsCalm host (receive type now p)
  unfolding receive judge note_initializing note_script_loaded note_script_error disarm
  receive-IsCalm playback_ended now p n c = absurd (n refl)
  receive-IsCalm playback_error now p n c =
      report-IsCalm _ _ (show_reload-IsCalm true _ (show_error-IsCalm _ p c))
  receive-IsCalm initializing now p n c =
      show_reload-IsCalm false (note_initializing now p)
        (alike-IsCalm p (note_initializing now p) c refl refl refl)
  receive-IsCalm yt_script_loaded now p n c =
      show_reload-IsCalm false (note_script_loaded now p)
        (alike-IsCalm p (note_script_loaded now p) c refl refl refl)
  receive-IsCalm yt_script_error now p n c = report-IsCalm _ _ (
      show_reload-IsCalm true _ (
        show_error-IsCalm _ (note_script_error now p)
          (alike-IsCalm p (note_script_error now p) c refl refl refl)))
  receive-IsCalm ready now p n c =
      report_some-IsCalm (verdict (become_ready now p).timings) (become_ready now p)
        (become_ready-IsCalm now p c)
  receive-IsCalm (unknown type) now p n c = report-IsCalm _ p c

  -- A message that is not both trusted and the end of the playback.
  quiet_message :
      (origin : String) (type : MessageType) (p : Player)
      → p.host ≡ host
      → is_quiet host (message origin type) ≡ true
      → is_trusted origin p ≡ true
      → type ≢ playback_ended
  unfolding is_trusted
  quiet_message origin playback_ended p h quiet trusted e =
      absurd (ground (arith, h, quiet, trusted))
  quiet_message origin playback_error p h quiet trusted e = absurd (ground (arith, e))
  quiet_message origin initializing p h quiet trusted e = absurd (ground (arith, e))
  quiet_message origin yt_script_loaded p h quiet trusted e = absurd (ground (arith, e))
  quiet_message origin yt_script_error p h quiet trusted e = absurd (ground (arith, e))
  quiet_message origin ready p h quiet trusted e = absurd (ground (arith, e))
  quiet_message origin (unknown t) p h quiet trusted e = absurd (ground (arith, e))

  on_input-IsCalm :
      (loc : Location) (path : String) (i : Input) (now : ℕ) (p : Player)
      → is_quiet host i ≡ true
      → IsCalm host p
      → IsCalm host (on_input loc path i now p)
  unfolding on_input on_message on_load on_timeout note_timeout disarm
  on_input-IsCalm loc path (message origin type) now p quiet c =
      if_cases (IsCalm host) (is_trusted origin p) _ _
        (λ t. receive-IsCalm type now p (quiet_message origin type p c.same_host quiet t) c)
        (λ _. alike-IsCalm p _ c refl refl refl)
  on_input-IsCalm loc path load now p quiet c = alike-IsCalm p _ c refl refl refl
  on_input-IsCalm loc path timeout now p quiet c =
      let late = alike-IsCalm p (note_timeout now p) c refl refl refl in
      if_elim (IsCalm host) p.pending _ _
        (if_elim (IsCalm host) (is_unset p.timings.player_ready) _ _
          (report-IsCalm _ _
            (show_reload-IsCalm true _ (show_error-IsCalm _ (note_timeout now p) late)))
          late)
        c
  on_input-IsCalm loc path reload now p quiet c = absurd (ground (arith, quiet))

  -- While the survey's host does not say that the playback ended and the user does not ask for the
  -- video again, a video question that was not reloaded before leaves its answers as they are,
  -- whatever else happens, failures and messages of other hosts included.
  pub run-answers :
      (loc : Location) (path : String) (is : List (ℕ × Input)) (q : VideoQuestion)
      → All (λ (i : ℕ × Input). is_quiet host i.1 ≡ true) is
      → q.player.events ≡ []
      → q.player.timings.reload_count ≡ 0
      → q.player.host ≡ host
      → (run loc path is q).answers ≡ q.answers
  unfolding run step deliver hear
  run-answers loc path [] q _ e n h = refl
  run-answers loc path ((now, i) ∷ is) q (quiet, more) e n h =
      let c =
        on_input-IsCalm loc path i now q.player quiet
          (record { silent_so_far = e; first_time = n; same_host = h }) in
      run-answers loc path is _ more refl c.first_time c.same_host
      ∙ ap (λ es. hear es q.answers) c.silent_so_far
