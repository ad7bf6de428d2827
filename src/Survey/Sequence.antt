-- ===== src/Survey/Sequence.antt =====
-- The prompt `Z`: its questions one after the other, and what it sends to the server.
pub mod Numbering
pub mod Progress
pub mod Beacons
pub mod Ending
mod Examples
use demolition_app.Base.{
  ℕ, suc, ◌+◌, ◌%◌, ltb, leb, ◌==◌, Bool, true, false, not, ◌&&◌, ◌||◌, if◌then◌else◌, String,
  str_eq, List, [], ◌∷◌, ◌++◌, length,
}

-- What the prompt keeps of a question: `type`, whether it has a threshold, `position`, `gb`, `fe`.
pub record Item : Type 0 where
  pub type : String
  pub has_threshold : Bool
  pub position : ℕ
  pub total : ℕ
  pub fresh : Bool

-- The types of what is sent, with their texts "a", "ae", "pa", "nr", "sv" and "o".
pub data BeaconType : Type 0 where
  accepted extra partial unanswered seen dismissed : BeaconType

pub record Beacon : Type 0 where
  pub type : BeaconType
  pub grants : Bool

-- `B`, with the questions after it in its group `bb`, whether that is `Ra`, its place in it, and the
-- groups of `nb.supplemental` after it; `bc`, `$k`, `active`, whether `wf` is set, whether
-- `pe` listens, whether `V.c` is 1; whether the question fades out, and the argument of `ll` then;
-- `Mh`, `zd`, whether there is an `answerUrl`, whether a beacon is sent after every question, whether
-- the format is "hats" or "websat"; whether the promotion is shown and whether all is over; what was
-- sent, and how often a question was shown.
pub record Prompt : Type 0 where
  pub current : Item
  pub following : List Item
  pub in_main : Bool
  pub index : ℕ
  pub later : List (List Item)
  pub answered : ℕ
  pub sent : Bool
  pub active : Bool
  pub viewed : Bool
  pub watching : Bool
  pub left : Bool
  pub fading : Bool
  pub keeps_view : Bool
  pub long : Bool
  pub free : ℕ
  pub has_url : Bool
  pub every : Bool
  pub hats : Bool
  pub promoting : Bool
  pub closed : Bool
  pub beacons : List Beacon
  pub shown : ℕ

-- Whether `wt` holds a beacon back once another was sent.
unfoldable pub is_held : BeaconType → Bool
is_held accepted = true
is_held extra = true
is_held partial = true
is_held dismissed = true
is_held unanswered = false
is_held seen = false

-- `wt`
unfoldable pub send : BeaconType → Bool → Prompt → Prompt
unfolding is_held
send type grants s = record s {
  sent = s.sent || s.has_url && is_held type;
  beacons =
      if s.has_url && not (is_held type && s.sent)
      then record { type = type; grants = grants } ∷ s.beacons
      else s.beacons;
}

-- `yt`
unfoldable pub send_partial : Prompt → Prompt
unfolding send
send_partial s = send (if ltb 0 s.answered then partial else unanswered) false s

-- `At`
pub send_accepted : Prompt → Prompt
unfolding send
send_accepted s = send (if ltb 2 s.answered then extra else accepted) true s

-- `Jc`, `za`
unfoldable pub close : Prompt → Prompt
close s = record s { active = false; closed = true }

-- `Bt`: a long survey ends with the promotion.
pub finish : Prompt → Prompt
unfolding send_accepted close
finish s₀ =
    let s = send_accepted s₀ in
    record s {
      promoting = s.promoting || ltb 2 s.answered && s.long;
      active = s.active && (ltb 2 s.answered && s.long);
      closed = s.closed || not (ltb 2 s.answered && s.long);
    }

-- `st`
pub show_question : Prompt → Prompt
show_question s = record s { sent = false; shown = s.shown + 1 }

-- `ll`, once the question before has faded out: the listeners, `pe` among them, are set again.
pub turn_page : Prompt → Prompt
unfolding show_question send
turn_page s₀ =
    let s = show_question (record s₀ { fading = false; viewed = true; watching = true }) in
    if s.keeps_view then s else send seen false s

-- The question starts to fade out, `zt`.
pub fade_to : Bool → Item → List Item → Prompt → Prompt
fade_to keeps_view item items s = record s {
  current = item;
  following = items;
  fading = true;
  keeps_view = keeps_view;
}

-- What `fq` sends before it goes on from the question.
pub send_between : Prompt → Prompt
unfolding send send_partial
send_between s =
    let t =
      if s.long && s.index + 1 == s.free
      then send accepted true s
      else if s.every || s.index % 3 == 2
      then send_partial s
      else s in
    record s { sent = t.sent; beacons = t.beacons }

-- A question about permissions does not fade out.
pub depart : Bool → Prompt → Prompt
unfolding turn_page
depart true s = turn_page s
depart false s = s

-- `fq`, where the group goes on.
pub go_on : Item → List Item → Prompt → Prompt
unfolding send_between fade_to depart
go_on item items s₀ =
    let s = fade_to true item items (record (send_between s₀) { index = s₀.index + 1 }) in
    depart (str_eq s₀.current.type "permissions") s

-- `Ul`, where the group goes on: the numbers go on too. `ll` is told whether it is not the first
-- question of its group.
pub go_on_extra : Bool → Item → List Item → Prompt → Prompt
unfolding fade_to
go_on_extra inside item items s =
    fade_to inside (record item { position = s.current.position + 1; total = s.current.total })
      items s

-- `Ct`, where there is another group. An empty one leaves the question where it is.
pub start_group : List Item → List (List Item) → Prompt → Prompt
unfolding send_accepted go_on_extra
start_group [] groups s₀ =
    let s = send_accepted s₀ in record s { in_main = false; following = []; later = groups }
start_group (item ∷ items) groups s₀ =
    go_on_extra false item items (record (send_accepted s₀) { in_main = false; later = groups })

-- `Ct`
pub next_group : List (List Item) → Prompt → Prompt
unfolding finish start_group
next_group [] s = finish s
next_group (group ∷ groups) s = start_group group groups s

-- `fq` or `Ul`, and `Ct` when the group is over.
pub advance : List Item → Prompt → Prompt
unfolding next_group go_on go_on_extra
advance [] s = next_group s.later s
advance (item ∷ items) s = if s.in_main then go_on item items s else go_on_extra true item items s

-- `wr`, once the answer is kept for later questions.
pub on_response : Prompt → Prompt
unfolding advance
on_response s = advance s.following (record s { answered = s.answered + 1 })

-- `ur`
pub on_failed_threshold : Prompt → Prompt
unfolding send close next_group
on_failed_threshold s₀ =
    let s = record s₀ { answered = s₀.answered + 1 } in
    if s.active then if s.hats then close (send accepted true s) else next_group s.later s else s₀

-- `kk` and `pe`: whether the page is visible, the prompt wide enough, and within the window.
pub on_view : Bool → Bool → Bool → Prompt → Prompt
unfolding finish send
on_view page_visible legible within s =
    if s.active && s.watching && page_visible
    then if legible
      then if within then send seen false (record s { viewed = true; watching = false }) else s
      else finish s
    else s

-- `rh`
unfoldable pub on_unload : Prompt → Prompt
unfolding send_partial
on_unload s = if s.active && not s.left then send_partial (record s { left = true }) else s

-- `Es`, and the other button of the promotion.
pub on_no_thanks : Prompt → Prompt
unfolding send close
on_no_thanks s = if s.active then close (send partial true s) else s

-- `kd`, `xt`
pub open_prompt : Prompt → Prompt
unfolding show_question
open_prompt s = show_question (record s { active = true; watching = true })

pub data Input : Type 0 where
  response failed_threshold faded unload no_thanks thanks : Input
  view : Bool → Bool → Bool → Input

-- Whether the question is asked: else nothing listens to it.
pub is_asking : Prompt → Bool
is_asking s = not (s.fading || s.promoting || s.closed)

pub step : Input → Prompt → Prompt
unfolding is_asking on_response on_failed_threshold turn_page on_view on_unload on_no_thanks close
step response s = if is_asking s then on_response s else s
step failed_threshold s = if is_asking s then on_failed_threshold s else s
step faded s = if s.fading then turn_page s else s
step (view page_visible legible within) s = on_view page_visible legible within s
step unload s = on_unload s
step no_thanks s = on_no_thanks s
step thanks s = if s.promoting then close s else s

pub run : List Input → Prompt → Prompt
unfolding step
run [] s = s
run (i ∷ is) s = run is (step i s)
