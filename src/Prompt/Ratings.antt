-- ===== src/Prompt/Ratings.antt =====
-- The control `ip`, which shows a rating as a row of stars.
pub mod Shown
mod Examples
use demolition_app.Base.{
  ℕ, zero, suc, ◌-◌, Bool, true, false, not, ◌&&◌, ◌||◌, ◌==◌, Option, some, none, List, [], ◌∷◌,
  leb, if◌then◌else◌,
}
use demolition_app.Base.Int.{ℤ, pos, negsuc, int_leb, int_eqb, int_max, int_min, int_suc, int_pred}

-- The events "change", "highlightchange", "highlight" and "unhighlight".
pub data RatingEvent : Type 0 where
  change highlight_change highlight unhighlight : RatingEvent

pub data Place : Type 0 where
  first_star mid_star last_star : Place

-- The class of a star, which `jp` makes of its place, "-on" or "-off", "-enabled" or "-disabled".
pub record Star : Type 0 where
  pub place : Place
  pub on : Bool
  pub enabled : Bool

-- `Wb.length`, `wd`, `va`, `Ye`, the classes of the elements `Cg`, the index that the select box
-- `Cf` shows, if there is one, and the events that were dispatched, the newest first.
pub record Ratings : Type 0 where
  pub count : ℕ
  pub value : ℤ
  pub highlighted : ℤ
  pub enabled : Bool
  pub stars : List Star
  pub select_box : Option ℤ
  pub sent : List RatingEvent

-- `jp`
pub star : ℕ → Bool → ℕ → Bool → Star
star count enabled i on = record {
  place = if i == 0 then first_star else if suc i == count then last_star else mid_star;
  on = on;
  enabled = enabled;
}

-- The loop of `kp`, for the last `n` of the stars.
pub stars_from : ℕ → Bool → ℤ → ℕ → ℕ → List Star
unfolding star
stars_from count enabled level i zero = []
stars_from count enabled level i (suc n) =
    star count enabled i (int_leb (pos i) level) ∷ stars_from count enabled level (suc i) n

-- `kp`
unfoldable pub draw : ℤ → Ratings → Ratings
unfolding stars_from
draw level r = record r { stars = stars_from r.count r.enabled level 0 r.count }

abbrev pub dispatch : RatingEvent → Ratings → Ratings
dispatch e r = record r { sent = e ∷ r.sent }

-- `Wb.length-1`
unfoldable pub last_index : ℕ → ℤ
last_index zero = negsuc 0
last_index (suc n) = pos n

-- `Math.max(-1, Math.min(a, Wb.length-1))`
unfoldable pub clamp : ℕ → ℤ → ℤ
unfolding last_index
clamp count a = int_max (negsuc 0) (int_min a (last_index count))

-- `wb`
unfoldable pub set_index : ℤ → Ratings → Ratings
unfolding clamp draw
set_index a₀ r =
    let a = clamp r.count a₀ in
    let drawn = draw a (record r { value = a }) in
    let shown = record drawn { select_box = elim r.select_box [ none ↦ none | some _ ↦ some a ] } in
    if int_eqb a r.value then r else dispatch change shown

-- `lp`
unfoldable pub reset_highlight : Ratings → Ratings
unfolding draw
reset_highlight r =
    dispatch unhighlight
      (dispatch highlight_change (record (draw r.value r) { highlighted = negsuc 0 }))

-- `ib`
pub set_enabled : Bool → Ratings → Ratings
unfolding reset_highlight
set_enabled true r = record r { enabled = true }
set_enabled false r = reset_highlight (record r { enabled = false })

-- `Gs`: the pointer came over an element, a star at an index or another one.
unfoldable pub on_mouse_over : Option ℕ → Ratings → Ratings
unfolding draw
on_mouse_over none r = r
on_mouse_over (some i) r =
    if r.enabled && not (int_eqb r.highlighted (pos i))
    then dispatch highlight
        (dispatch highlight_change (record (draw (pos i) r) { highlighted = pos i }))
    else r

-- `Fs`: the pointer left for no element, or for an element that is a star or not.
unfoldable pub on_mouse_out : Option Bool → Ratings → Ratings
unfolding reset_highlight
on_mouse_out none r = r
on_mouse_out (some is_star) r = if is_star then r else reset_highlight r

-- `bi`
unfoldable pub on_click : Option ℕ → Ratings → Ratings
unfolding set_index
on_click none r = r
on_click (some i) r = if r.enabled then set_index (pos i) r else r

-- The index that `Bs` asks for: Escape, Home, End, the arrows, or a digit.
unfoldable pub key_target : ℕ → Ratings → Option ℤ
key_target code r =
    if code == 27
    then some (negsuc 0)
    else if code == 36
    then some (pos 0)
    else if code == 35
    then some (pos r.count)
    else if code == 37
    then some (int_pred r.value)
    else if code == 39
    then some (int_suc r.value)
    else if leb 48 code && leb code 57
    then some (int_pred (pos (code - 48)))
    else none

-- `Bs`
unfoldable pub on_key_down : ℕ → Ratings → Ratings
unfolding key_target set_index
on_key_down code r =
    let moved : Ratings = elim (key_target code r) [ none ↦ r | some a ↦ set_index a r ] in
    if r.enabled then moved else r

-- `new ip`, once its stars `J` are made and drawn; `box` tells that it decorates a select box.
pub new_ratings : ℕ → Bool → Ratings
unfolding draw
new_ratings count box = draw (negsuc 0) (record {
  count = count;
  value = negsuc 0;
  highlighted = negsuc 0;
  enabled = true;
  stars = [];
  select_box = if box then some (negsuc 0) else none;
  sent = [];
})
