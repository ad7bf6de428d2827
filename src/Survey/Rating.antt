-- ===== src/Survey/Rating.antt =====
-- The question `Ys` for a rating: its stars and its button.
pub mod Given
mod Examples
use demolition_app.Base.{ℕ, Bool, true, false, not, ◌&&◌, if◌then◌else◌, Option, List, [], ◌∷◌}
use demolition_app.Base.Int.{ℤ, negsuc, int_eqb, int_suc}
use demolition_app.Prompt.Ratings.{
  Ratings, RatingEvent, change, highlight_change, highlight, unhighlight, set_index, on_click,
  on_key_down, on_mouse_over, on_mouse_out,
}

-- The control of `Lk`, of which there is one; whether there is the button `la`; whether it has lost its
-- class "disabled" and is listened to; whether `Ph` is an event; the answers that were handed on, the
-- newest first; and whether a listener failed.
pub record RatingQuestion : Type 0 where
  pub ratings : Ratings
  pub has_button : Bool
  pub listened : Bool
  pub pending : Bool
  pub answers : List ℤ
  pub failed : Bool

-- The answer that `Qb` makes of the event, which names the control and not the value it had.
pub hand_on : RatingQuestion → RatingQuestion
hand_on q = record q { answers = int_suc (q.ratings.value) ∷ q.answers }

-- `ua`, for the event "change" of the control.
pub on_change : RatingQuestion → RatingQuestion
unfolding hand_on
on_change q =
    let chosen : RatingQuestion =
      if q.has_button then record q { pending = true; listened = true } else hand_on q in
    if int_eqb (negsuc 0) q.ratings.value then record q { pending = false } else chosen

-- `ua`, for a click on the button: without an event it asks the button for its value.
pub on_submit : RatingQuestion → RatingQuestion
unfolding hand_on
on_submit q =
    let asked : RatingQuestion = if q.pending then hand_on q else record q { failed = true } in
    if q.has_button && q.listened then asked else q

pub on_event : RatingEvent → RatingQuestion → RatingQuestion
unfolding on_change
on_event change q = on_change q
on_event highlight_change q = q
on_event highlight q = q
on_event unhighlight q = q

-- The events that the control dispatched, the newest first.
pub hear : List RatingEvent → RatingQuestion → RatingQuestion
unfolding on_event
hear [] q = q
hear (e ∷ es) q = on_event e (hear es q)

-- Something that happens to the control.
pub act : (Ratings → Ratings) → RatingQuestion → RatingQuestion
unfolding hear
act f q =
    let r : Ratings = f (record (q.ratings) { sent = [] }) in hear r.sent (record q { ratings = r })

-- `reset`
pub reset : RatingQuestion → RatingQuestion
unfolding act
reset q = act (set_index (negsuc 0)) q

pub data Input : Type 0 where
  clicked pointed_at : Option ℕ → Input
  left_for : Option Bool → Input
  pressed : ℕ → Input
  submitted cleared : Input

pub step : Input → RatingQuestion → RatingQuestion
unfolding act on_submit reset
step (clicked i) q = act (on_click i) q
step (pointed_at i) q = act (on_mouse_over i) q
step (left_for e) q = act (on_mouse_out e) q
step (pressed code) q = act (on_key_down code) q
step submitted q = on_submit q
step cleared q = reset q

pub run : List Input → RatingQuestion → RatingQuestion
unfolding step
run [] q = q
run (i ∷ is) q = run is (step i q)
