-- ===== src/Tags/Reports.antt =====
-- The reports that the manager sends of its own work: `vl`, `wl`, `tl`, and their start in `Sh`.
pub mod Budget
mod Examples
use demolition_app.Base.{
  ℕ, suc, ◌-◌, ltb, leb, ◌==◌, Bool, true, false, not, ◌&&◌, ◌||◌, if◌then◌else◌, String, Option,
  none, some, List, [], ◌∷◌, ◌++◌,
}

-- `il`; the events that were reported, `nl`, and those that are not, `ql`; `ol`, as the list of its parts;
-- whether there is a timeout; `rl` and `sl`, what is left for the second and at all; the images.
pub record Reporter : Type 0 where
  pub current : Option ℕ
  pub reported : List ℕ
  pub dropped : List ℕ
  pub parts : List String
  pub timed : Bool
  pub second_left : ℕ
  pub total_left : ℕ
  pub images : ℕ

pub member : ℕ → List ℕ → Bool
member n [] = false
member n (m ∷ ms) = m == n || member n ms

pub is_nil : List String → Bool
is_nil [] = true
is_nil (s ∷ ss) = false

-- The send of `vl`, where something is left.
unfoldable pub send : ℕ → Reporter → Reporter
send n r =
    let used = record r { second_left = r.second_left - 1; dropped = n ∷ r.dropped } in
    let out = record r {
      second_left = r.second_left - 1;
      total_left = r.total_left - 1;
      reported = n ∷ r.reported;
      parts = [];
      images = suc r.images;
    } in
    if r.second_left == 0
    then record r { dropped = n ∷ r.dropped }
    else if r.total_left == 0
    then used
    else out

unfoldable pub send_current : Option ℕ → Reporter → Reporter
unfolding send member is_nil
send_current none r = r
send_current (some n) r =
    if member n r.reported && is_nil r.parts then r else if member n r.dropped then r else send n r

-- `vl`
unfoldable pub flush : Reporter → Reporter
unfolding send_current
flush r = send_current r.current (record r { timed = false })

abbrev pub is_current : Option ℕ → ℕ → Bool
is_current o n = elim o [ none ↦ false | some m ↦ m == n ]

-- The length of the address is the browser's to print; whether reports are sent at all is random.
module _ (address_size : Reporter → ℕ) (samples : Bool) where
  -- `wl`, for what happened to a tag in an event.
  unfoldable pub tell : ℕ → String → Reporter → Reporter
  unfolding flush
  tell n part r₀ =
      let r = if is_current r₀.current n then r₀ else record (flush r₀) { current = some n } in
      let s = record r { parts = r.parts ++ part ∷ []; timed = true } in
      let told = if leb 2022 (address_size s) then flush s else s in
      if samples && not (member n r₀.dropped) then told else r₀

  -- The start of an event, in `Sh`.
  unfoldable pub begin : ℕ → Reporter → Reporter
  unfolding flush
  begin n r =
      if not samples || r.total_left == 0 || is_current r.current n
      then r
      else record (flush r) { current = some n; parts = []; timed = true }

  pub data Input : Type 0 where
    told : ℕ → String → Input
    begun : ℕ → Input
    timeout second : Input

  -- `tl`, each second.
  unfoldable pub step : Input → Reporter → Reporter
  unfolding tell begin flush
  step (told n part) r = tell n part r
  step (begun n) r = begin n r
  step timeout r = flush r
  step second r = record r { second_left = 2 }

  unfoldable pub run : List Input → Reporter → Reporter
  unfolding step
  run [] r = r
  run (i ∷ is) r = run is (step i r)

  -- The seconds that pass.
  pub seconds : List Input → ℕ
  seconds [] = 0
  seconds (told n part ∷ is) = seconds is
  seconds (begun n ∷ is) = seconds is
  seconds (timeout ∷ is) = seconds is
  seconds (second ∷ is) = suc (seconds is)
