-- ===== src/Prompt/Viewport.antt =====
-- The delay `Ki`, and the monitor `dj`, which looks at the size of the window some time after it
-- was last resized.
pub mod Resizes
mod Examples
use demolition_app.Base.{
  ℕ, Bool, true, false, not, ◌&&◌, ◌||◌, ◌==◌, Option, some, none, List, [], ◌∷◌, ltb,
  if◌then◌else◌,
}

-- `ja`: 0, -1 for a delay that is too long for `setTimeout`, or a timeout of some length.
pub data Handle : Type 0 where
  idle never : Handle
  armed : ℕ → Handle

-- `wf`
pub call_once : ℕ → Handle
call_once delay = if ltb 2147483647 delay then never else armed delay

-- `Dc`
pub is_active : Handle → Bool
is_active idle = false
is_active never = true
is_active (armed n) = true

-- `Kh`, and `Lh` for two sizes.
pub record Size : Type 0 where
  pub width : ℕ
  pub height : ℕ

pub same_size : Size → Size → Bool
same_size a b = a.width == b.width && a.height == b.height

-- The events "b", "a" and "resize".
pub data SizeEvent : Type 0 where
  width height resize : SizeEvent

-- `ah`, the delay of `Qk`, `At`, and the events that were dispatched, the newest first.
pub record Monitor : Type 0 where
  pub size : Option Size
  pub delay : Handle
  pub wait : ℕ
  pub sent : List SizeEvent

-- `new dj`; a wait of 0 becomes 100.
pub new_monitor : Size → ℕ → Monitor
new_monitor size wait = record {
  size = some size;
  delay = idle;
  wait = if wait == 0 then 100 else wait;
  sent = [];
}

-- `Wj`: the window was resized, and the delay starts again.
pub on_resize : Monitor → Monitor
unfolding call_once
on_resize m = record m { delay = call_once m.wait }

-- The dispatches of `Js`, from the old size.
pub tell : Option Size → Size → List SizeEvent → List SizeEvent
tell none b sent = resize ∷ height ∷ width ∷ sent
tell (some a) b sent =
    let wide = if a.width == b.width then sent else width ∷ sent in
    let high = if a.height == b.height then wide else height ∷ wide in
    if same_size a b then high else resize ∷ high

-- `yq` and `Js`: the delay ran out; `gone` tells that the window's size is no longer kept.
pub on_delay : Bool → Size → Monitor → Monitor
unfolding tell
on_delay gone b m =
    let m' = record m { delay = idle } in
    if gone then m' else record m' { size = some b; sent = tell m.size b m.sent }
