-- ===== src/Survey/Site.antt =====
-- The survey `Xu` as a site shows it: how it is collapsed, closed and thanked for.
pub mod Locked
mod Examples
use demolition_app.Base.{
  ℕ, ltb, ◌==◌, Bool, true, false, not, ◌&&◌, ◌||◌, if◌then◌else◌, String, str_eq, Option, none,
  some, List, [], ◌∷◌,
}
use demolition_app.Survey.Sequence.{
  Prompt, send, send_partial, close, partial, dismissed, unanswered, on_unload,
}

-- The prompt; `isCollapsed`, `Ec`, whether the size is given, and what `Yu` finds of the window; `P`, `og`, `gm`, whether the size is "webview", `Og`, `vn`; whether the
-- style `rg` is there, and whether the body has the class that stops it from scrolling; `rj`; the type of
-- the thanks, whether they are shown, `us`; whether it fades out; `V.sh`; whether it is disposed of.
pub record Site : Type 0 where
  pub prompt : Prompt
  pub collapsed : Bool
  pub modal : Bool
  pub sized : Bool
  pub small : Bool
  pub modern : Bool
  pub no_shadow : Bool
  pub begins_open : Bool
  pub webview : Bool
  pub begins_collapsed : Bool
  pub first : Bool
  pub styled : Bool
  pub locked : Bool
  pub closeable : Bool
  pub thanks : String
  pub thanked : Bool
  pub stays : Bool
  pub fading : Bool
  pub closed_by : Option String
  pub disposed : Bool

-- What the page is asked for: `payload.thankYouScreen`, `w.thankYouScreen` with whether it is one of `gt`,
-- whether the size is "webview", and `w.hatsClient`.
pub choose_thanks : Option String → Option (String × Bool) → Bool → String → String
choose_thanks (some type) wanted webview client = type
choose_thanks none (some (type, true)) webview client = type
choose_thanks none (some (type, false)) webview client = "normal"
choose_thanks none none true client = "none"
choose_thanks none none false client =
    if str_eq client "gws"
    then "search"
    else if str_eq client "tactile"
        || str_eq client "yt"
        || str_eq client "maps_engine_lite"
        || str_eq client "maps_engine_pro"
    then client
    else "normal"

-- Whether the page behind is kept from scrolling while the survey is open.
pub covers_page : Site → Bool
covers_page s = s.modal && s.modern && not s.no_shadow

-- `Yu`: without a size, the window decides whether the survey covers the page.
pub measure : Site → Site
measure s = record s { modal = if s.sized then s.modal else s.small }

-- `resize`, with what `Yu` finds of the window now.
pub on_resize : Bool → Site → Site
unfolding measure
on_resize small s = measure (record s { small = small })

-- `Ei`, of a survey whose element is displayed.
pub toggle : Site → Site
unfolding covers_page measure
toggle s₀ =
    let s = measure s₀ in
    record s {
      collapsed = not s.collapsed;
      styled = s.styled || covers_page s;
      locked = if covers_page s then s.collapsed else s.locked;
    }

pub toggle_if : Bool → Site → Site
unfolding toggle
toggle_if true s = toggle s
toggle_if false s = s

-- `We`, once it was drawn.
pub on_drawn : Site → Site
unfolding toggle_if measure
on_drawn s₀ =
    let m = measure s₀ in
    let begins = m.begins_collapsed || m.modal && not m.begins_open && not m.webview in
    let s = record m { begins_collapsed = if m.first then begins else m.begins_collapsed } in
    let t = toggle_if (s.first && not s.collapsed && s.begins_collapsed) s in
    record t { first = false }

-- `za`, and the disposal that it ends with.
pub hide : Site → Site
unfolding close
hide s = record s {
  prompt = close s.prompt;
  locked = if s.styled then false else s.locked;
  styled = false;
  disposed = true;
}

-- What `qh` sends.
pub send_closed : Site → Site
unfolding send
send_closed s =
    if ltb 0 s.prompt.answered
    then record s { prompt = send partial true s.prompt }
    else record s { prompt = send dismissed true s.prompt; closed_by = some "close" }

-- `qh`; the key is 0 for a click.
pub on_close : ℕ → Site → Site
unfolding hide send_closed
on_close key s =
    if key == 0 || key == 13 || key == 32 || key == 27
    then if s.prompt.active then send_closed (hide s) else hide s
    else s

-- `Qj`, for the Escape key.
pub on_escape : ℕ → Site → Site
unfolding on_close
on_escape key s = if s.closeable && key == 27 then on_close key s else s

-- `rh`
pub on_leave : Site → Site
unfolding on_unload
on_leave s = if ltb 0 s.prompt.answered then record s { prompt = on_unload s.prompt } else s

-- `dr`, which the page calls as `_402.close`; the argument is whether the user asked for it.
pub on_close_call : Bool → Site → Site
unfolding hide send on_leave
on_close_call asked s₀ =
    let s = hide s₀ in
    let told = record s { prompt = send unanswered true s.prompt; closed_by = some "close" } in
    if s₀.prompt.active then if asked then told else on_leave s else s₀

-- `Jc`, `Qm`
pub give_thanks : Site → Site
give_thanks s =
    let shows = not (str_eq s.thanks "none") in
    record s {
      prompt = record (s.prompt) { active = false };
      thanked = s.thanked || shows;
      fading = s.fading || not shows || not s.stays;
    }

pub data Input : Type 0 where
  toggled drawn finished left : Input
  closed_with escaped : ℕ → Input
  close_called resized : Bool → Input

-- The survey is collapsed and opened only while it is there.
pub step : Input → Site → Site
unfolding toggle on_drawn on_resize give_thanks on_leave on_close on_escape on_close_call
step toggled s = if s.prompt.closed then s else toggle s
step drawn s = if s.prompt.closed then s else on_drawn s
step (resized small) s = if s.prompt.closed then s else on_resize small s
step finished s = give_thanks s
step left s = on_leave s
step (closed_with key) s = on_close key s
step (escaped key) s = on_escape key s
step (close_called asked) s = on_close_call asked s

pub run : List Input → Site → Site
unfolding step
run [] s = s
run (i ∷ is) s = run is (step i s)
