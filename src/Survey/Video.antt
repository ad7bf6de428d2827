-- ===== src/Survey/Video.antt =====
-- The media player `Qs` of a video question, and the question's answers (`Xs`).
pub mod Answers
mod Examples
use Prim.Native.String.{count, ◌++◌ as str_append}
use demolition_app.Base.Int.{ℤ, pos, negsuc, int_eqb, int_leb, int_sub}
use demolition_app.Base.{
  ℕ, ◌+◌, ltb, ◌==◌, Bool, true, false, not, ◌&&◌, ◌||◌, if◌then◌else◌, String, str_eq, Option,
  none, some, List, [], ◌∷◌, ◌++◌,
}

-- `ha`: when each thing happened, in milliseconds after the player was loaded, -1 if it did not.
pub record Timings : Type 0 where
  pub player_initializing : ℤ
  pub yt_script_loaded : ℤ
  pub yt_script_error : ℤ
  pub iframe_loaded : ℤ
  pub player_ready : ℤ
  pub timed_out : ℤ
  pub user_reloaded : ℤ
  pub reload_count : ℕ
  pub ignored_origin : String

-- `Ps`
pub new_timings : ℕ → Timings
new_timings reload_count = record {
  player_initializing = negsuc 0;
  yt_script_loaded = negsuc 0;
  yt_script_error = negsuc 0;
  iframe_loaded = negsuc 0;
  player_ready = negsuc 0;
  timed_out = negsuc 0;
  user_reloaded = negsuc 0;
  reload_count = reload_count;
  ignored_origin = "";
}

pub data VideoEvent : Type 0 where
  viewed failed reset : VideoEvent

-- `vf`, `zl`, `ha`, `od`, whether the timer `kg` is set, `Ut`; the message that is shown, the classes
-- of the video, whether the reload button is hidden, the address of the frame; the events
-- dispatched and the errors reported.
pub record Player : Type 0 where
  pub video_id : String
  pub host : String
  pub timings : Timings
  pub started : ℤ
  pub pending : Bool
  pub silent : Bool
  pub message : String
  pub success : Bool
  pub failure : Bool
  pub reload_hidden : Bool
  pub src : String
  pub events : List VideoEvent
  pub reports : List String

pub is_unset : ℤ → Bool
is_unset t = int_eqb t (negsuc 0)

pub is_set : ℤ → Bool
is_set t = int_leb (pos 0) t

pub elapsed : ℕ → Player → ℤ
elapsed now p = int_sub (pos now) p.started

-- What the page's address gives.
pub record Location : Type 0 where
  pub protocol : String
  pub hostname : String
  pub port : String

-- The address that `Ss` builds; `path` is `Tq.ya().Al`, empty when there is none.
pub player_url : Location → String → String → String → String
player_url loc path host video_id =
    let base = str_append loc.protocol "//" in
    let port = if str_eq loc.port "" then "" else str_append ":" loc.port in
    let local = str_eq base "file://" in
    let origin = if local then base else str_append base (str_append loc.hostname port) in
    let server = if local then str_append "https:" host else host in
    let place = if local || str_eq path "" then "/video" else path in
    str_append server
      (str_append place (str_append "?id=" (str_append video_id (str_append "&origin=" origin))))

-- `Ss`
pub load_frame : Location → String → Player → Player
unfolding player_url
load_frame loc path p = record p { src = player_url loc path p.host p.video_id }

-- `Rs`: the timer runs for twenty seconds.
pub arm : ℕ → Player → Player
arm now p = record p { started = pos now; pending = true }

-- `Us`
pub disarm : Player → Player
disarm p = record p { pending = false }

-- `Ts`
pub show_error : String → Player → Player
show_error message p = record p { message = message; success = false; failure = true }

-- `Vs`
pub show_reload : Bool → Player → Player
show_reload visible p = record p {
  reload_hidden = not visible;
  events = if visible && ltb 0 p.timings.reload_count then p.events ++ failed ∷ [] else p.events;
}

-- `Ws`
pub report : String → Player → Player
report text p = record p { reports = if p.silent then p.reports else p.reports ++ text ∷ [] }

-- `J`: the identifier of a video has eleven characters.
pub start : Location → String → ℕ → Player → Player
unfolding arm load_frame show_error
start loc path now p =
    if not (str_eq p.video_id "") && (count p.video_id == 11)
    then load_frame loc path (arm now p)
    else show_error "invalid-video-id-error" p

pub data MessageType : Type 0 where
  playback_ended playback_error initializing yt_script_loaded yt_script_error ready : MessageType
  unknown : String → MessageType

pub is_early : Timings → Bool
unfolding is_unset
is_early t = not (is_unset t.iframe_loaded) && not (int_leb t.player_initializing t.iframe_loaded)

-- What `rt` reports of a player that is ready.
pub verdict : Timings → Option String
unfolding is_unset is_set is_early
verdict t =
    if is_unset t.player_initializing
      || is_unset t.yt_script_loaded
      || is_unset t.iframe_loaded
      || is_set t.timed_out
      || is_set t.yt_script_error
    then some "success w/ missing or unexpected load event"
    else if ltb 0 t.reload_count
    then some "success after user reload"
    else if is_early t
    then some "success but Loaded before 1st postmessage"
    else none

pub report_some : Option String → Player → Player
unfolding report
report_some none p = p
report_some (some text) p = report text p

pub judge : Player → Player
unfolding verdict report_some
judge p = report_some (verdict p.timings) p

-- The message of a player that is ready, before it is judged.
pub become_ready : ℕ → Player → Player
unfolding elapsed disarm show_reload is_set
become_ready now p₀ =
    let stamped = record p₀ { timings = record (p₀.timings) { player_ready = elapsed now p₀ } } in
    let p = show_reload false (record (disarm stamped) { success = true; failure = false }) in
    record p {
      events =
          if is_set p.timings.timed_out && ltb 0 p.timings.reload_count
          then p.events ++ reset ∷ []
          else p.events;
    }

pub note_initializing : ℕ → Player → Player
unfolding elapsed disarm
note_initializing now p =
    disarm (record p { timings = record (p.timings) { player_initializing = elapsed now p } })

pub note_script_loaded : ℕ → Player → Player
unfolding elapsed disarm
note_script_loaded now p =
    disarm (record p { timings = record (p.timings) { yt_script_loaded = elapsed now p } })

pub note_script_error : ℕ → Player → Player
unfolding elapsed disarm
note_script_error now p =
    disarm (record p { timings = record (p.timings) { yt_script_error = elapsed now p } })

-- `rt`, for a message of the survey's host.
pub receive : MessageType → ℕ → Player → Player
unfolding show_reload show_error report judge become_ready note_initializing note_script_loaded
    note_script_error
receive playback_ended now p = record p { events = p.events ++ viewed ∷ [] }
receive playback_error now p =
    report "failed to play the YouTube content" (show_reload true (show_error "generic-error" p))
receive initializing now p = show_reload false (note_initializing now p)
receive yt_script_loaded now p = show_reload false (note_script_loaded now p)
receive yt_script_error now p =
    report "failed to load the YT script"
      (show_reload true (show_error "generic-error" (note_script_error now p)))
receive ready now p = judge (become_ready now p)
receive (unknown type) now p = report (str_append "unknown post-message type: " type) p

pub is_trusted : String → Player → Bool
is_trusted origin p =
    str_eq origin (str_append "http:" p.host) || str_eq origin (str_append "https:" p.host)

-- `rt`
pub on_message : String → MessageType → ℕ → Player → Player
unfolding is_trusted receive
on_message origin type now p =
    if is_trusted origin p
    then receive type now p
    else record p { timings = record (p.timings) { ignored_origin = origin } }

-- `kr`: the frame is loaded, and its player is given five seconds more.
pub on_load : ℕ → Player → Player
unfolding elapsed disarm is_unset
on_load now p =
    let t = record (p.timings) { iframe_loaded = elapsed now p } in
    record p {
      timings = t;
      pending =
          is_unset t.player_initializing
          && is_unset t.yt_script_loaded
          && is_unset t.yt_script_error
          && is_unset t.player_ready;
    }

pub note_timeout : ℕ → Player → Player
unfolding elapsed disarm
note_timeout now p =
    disarm (record p { timings = record (p.timings) { timed_out = elapsed now p } })

-- `fn`, which the timer calls.
pub on_timeout : ℕ → Player → Player
unfolding note_timeout is_unset show_error show_reload report
on_timeout now p₀ =
    let p = note_timeout now p₀ in
    if is_unset p.timings.player_ready
    then report "timed out loading player iframe" (show_reload true (show_error "generic-error" p))
    else p

-- `xr`. The time of `user_reloaded` is lost with the other times, which start afresh.
pub on_reload : Location → String → ℕ → Player → Player
unfolding elapsed disarm show_reload report new_timings arm load_frame
on_reload loc path now p₀ =
    let p = show_reload false (disarm p₀) in
    let again = p.timings.reload_count in
    load_frame loc path (
      arm now (
        report "user reloaded player" (record p {
          events = if ltb 0 again then p.events ++ reset ∷ [] else p.events;
          success = false;
          failure = false;
          timings = new_timings (again + 1);
        })))
