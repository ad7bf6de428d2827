-- ===== src/Tracker/Visit.antt =====
-- The visitor and the visit: who it is, how many hits were sent, and the cookies that keep both.
pub mod Rate
pub mod Cookies
pub mod Dotted
mod Examples
use demolition_app.Base.{
  ℕ, suc, ◌+◌, ◌-◌, ◌*◌, ◌/◌, ltb, leb, ◌==◌, Bool, true, false, not, ◌&&◌, ◌||◌, if◌then◌else◌,
  Option, none, some, List, [], ◌∷◌,
}

-- `O`, the hash of the domain; `ab`, the time of the start; `Q`, the visitor; `Vb`, `Wb` and `Zb`, the
-- first, the last and this visit, 0 where there is none; `$b`; `cc`, the hits of the visit; `R` and `dc`,
-- the events that are left and when some were added; `Sb`, `ac`, `Ub`, `bc` and `Mc`; `hc` and `fc`.
pub record Visit : Type 0 where
  pub hash : ℕ
  pub start : ℕ
  pub visitor : Option ℕ
  pub first : ℕ
  pub last : ℕ
  pub current : ℕ
  pub count : ℕ
  pub hits : ℕ
  pub tokens : ℕ
  pub refilled : ℕ
  pub is_new : Bool
  pub begun : Bool
  pub is_unknown : Bool
  pub expired : Bool
  pub linked : Bool
  pub new_campaign : Bool
  pub campaign_visit : ℕ

-- `Hd`; the number of the visitor is random.
unfoldable pub begin_visitor : ℕ → Visit → Visit
begin_visitor visitor v = record v {
  is_new = true;
  visitor = some visitor;
  first = v.start;
  last = v.start;
  current = v.start;
  count = 1;
  begun = true;
  hits = 0;
  tokens = 10;
  refilled = v.start;
  is_unknown = false;
  expired = false;
}

-- `Id`
unfoldable pub begin_visit : Visit → Visit
begin_visit v = record v {
  last = v.current;
  current = v.start;
  count = suc v.count;
  begun = true;
  hits = 0;
  tokens = 10;
  refilled = v.start;
  expired = false;
}

pub is_none : Option ℕ → Bool
is_none none = true
is_none (some n) = false

-- `Jd`
unfoldable pub begin : ℕ → Visit → Visit
unfolding begin_visitor begin_visit is_none
begin visitor v =
    if is_none v.visitor || v.is_unknown && not v.linked
    then begin_visitor visitor v
    else if v.expired
    then begin_visit v
    else v

-- `Kd`: a new campaign begins a visit.
unfoldable pub begin_campaign : Visit → Visit
unfolding begin_visit
begin_campaign v =
    let w = begin_visit v in
    if v.new_campaign && not v.begun then record w { campaign_visit = w.count } else v

-- What a hit is of.
pub data HitType : Type 0 where
  page event var trans social feedback : HitType

abbrev pub is_event : HitType → Bool
is_event type = elim type [ event ↦ true | _ ↦ false ]

abbrev pub is_trans : HitType → Bool
is_trans type = elim type [ trans ↦ true | _ ↦ false ]

-- When events were added last, in milliseconds: `dc` is in seconds until some are.
unfoldable pub refilled_ms : Visit → ℕ
refilled_ms v = if v.refilled == v.current then 1000 * v.refilled else v.refilled

-- One event more for each second, at most ten.
unfoldable pub refill : ℕ → Visit → Visit
unfolding refilled_ms
refill now v =
    let seconds = (now - refilled_ms v) / 1000 in
    let sum = v.tokens + seconds in
    let filled = record v { refilled = now; tokens = if ltb 10 sum then 10 else sum } in
    if ltb 0 seconds then filled else v

-- `ne`: the visit, and whether the hit goes on; the events are added to also when 500 hits were sent.
unfoldable pub limited : HitType → ℕ → Visit → Visit
unfolding refill
limited type now v = if is_event type then refill now v else v

unfoldable pub passes : HitType → ℕ → Visit → Bool
unfolding limited
passes type now v =
    (is_trans type || ltb v.hits 500) && (not (is_event type) || ltb 0 (limited type now v).tokens)

-- `re`, with the one hit that is counted, and `pe`
unfoldable pub spend : HitType → Visit → Visit
spend type v = record v {
  hits = suc v.hits;
  tokens = if is_event type then v.tokens - 1 else v.tokens;
}

-- A hit, the filters `G`, `P` and `Q`.
unfoldable pub hit : HitType → ℕ → Visit → Visit
unfolding passes limited spend
hit type now v = let w = limited type now v in if passes type now v then spend type w else w

-- The hits at given times, and how many of them were sent.
unfoldable pub run : List (HitType × ℕ) → Visit → Visit
unfolding hit
run [] v = v
run ((type, now) ∷ hs) v = run hs (hit type now v)

unfoldable pub events_sent : List (HitType × ℕ) → Visit → ℕ
unfolding hit passes
events_sent [] v = 0
events_sent ((type, now) ∷ hs) v =
    let rest = events_sent hs (hit type now v) in
    if is_event type && passes type now v then suc rest else rest
