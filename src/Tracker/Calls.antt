-- ===== src/Tracker/Calls.antt =====
-- The calls of a tracker `U` that a page makes: what they check, what they keep, and the hits they make.
pub mod Checked
mod Examples
use Prim.Native.Char.{code}
use Prim.Native.String
use demolition_app.Base.{
  ℕ, zero, suc, ◌+◌, ◌-◌, ◌%◌, ltb, leb, ◌==◌, Bool, true, false, not, ◌&&◌, ◌||◌, if◌then◌else◌,
  String, str_eq, Option, none, some, List, [], ◌∷◌, ◌++◌,
}
use demolition_app.Base.Int.{ℤ, pos, negsuc}
use demolition_app.Tracker.Visit.{HitType, page, event, var, trans, social}
use demolition_app.Tracker.Hits.{
  Arg, is_text, is_whole, is_missing, is_empty, Hit, page_hit, event_hit, timing_hit, social_hit,
  trans_hit, var_hit, Tracker, Slot, numbered, named, extension_hit, CustomVar,
}

-- `B`; what makes small letters of a text, and the host of the page without "www.", are the browser's.
module _ (lower : String → String) (host : String) where
  unfoldable pub set_domain : String → Tracker → Tracker
  set_domain a t = record t {
    domain =
        if str_eq a "auto"
        then host
        else if str_eq a "" || str_eq a "-" || str_eq a "none"
        then ""
        else lower a;
  }

  -- `new U`, with the search engines of `Ld`.
  unfoldable pub new_tracker : ℕ → List (List String) → String → String → String → Tracker
  unfolding set_domain
  new_tracker visitor engines name account namespace = set_domain "auto" (record {
    visitor = visitor;
    account = if str_eq account "" then "UA-XXXXX-X" else account;
    name = name;
    namespace = namespace;
    domain = "";
    path = "/";
    sample_rate = 100;
    speed_rate = 1;
    max_vars = 50;
    allow_linker = false;
    allow_anchor = false;
    allow_hash = true;
    engines = engines;
    ignored_words = [];
    ignored_sites = [];
    vars = λ i. none;
    named_vars = λ k. none;
    page_groups = λ i. none;
    dev_ids = [];
    user_var = "";
    on_hit = [];
    on_load = [];
    last_page = none;
    page = none;
    hits = [];
  })

  -- `Z`, with the parts of the text that the source joins.
  unfoldable pub add_organic : String → String → String → String → Bool → Tracker → Tracker
  add_organic site word name path first t =
      let short = site ∷ lower word ∷ [] in
      let e =
        if str_eq name "" && str_eq path "" then short else site ∷ lower word ∷ name ∷ path ∷ [] in
      if str_eq site "" || str_eq word ""
      then t
      else record t { engines = if first then e ∷ t.engines else t.engines ++ e ∷ [] }

  -- `W`, `X`
  unfoldable pub add_ignored_organic : String → Tracker → Tracker
  add_ignored_organic a t =
      if str_eq a "" then t else record t { ignored_words = t.ignored_words ++ lower a ∷ [] }

  unfoldable pub add_ignored_ref : String → Tracker → Tracker
  add_ignored_ref a t =
      if str_eq a "" then t else record t { ignored_sites = t.ignored_sites ++ lower a ∷ [] }

-- `this.a.j`
unfoldable pub make : Hit → Tracker → Tracker
make h t = record t { hits = h ∷ t.hits }

-- `Fa`, where the argument is a text or missing; `K` comes once the times of the page are known.
unfoldable pub track_pageview : Option String → Tracker → Tracker
unfolding make
track_pageview a t =
    let p : Option String = elim a [
      | some s ↦ if str_eq s "" then t.page else some s
      | none ↦ t.page
    ] in
    make (page_hit p) (record t { last_page = p })

-- `F`: whether the event was tracked, and the tracker.
unfoldable pub is_event : Arg → Arg → Arg → Arg → Bool
is_event category action label value =
    not (is_empty category)
    && is_text category
    && not (is_empty action)
    && is_text action
    && (is_missing label || is_text label)
    && (is_missing value || is_whole value)

unfoldable pub track_event : Arg → Arg → Arg → Arg → Bool → Tracker → Bool × Tracker
unfolding is_event make
track_event category action label value quiet t =
    let hit = event_hit (record {
      category = category;
      action = action;
      label = label;
      value = value;
      quiet = quiet;
    }) in
    if is_event category action label value then (true, make hit t) else (false, t)

-- `Ha`: only some visitors send times; the rate is the page's, or that of the call.
unfoldable pub is_timing : Arg → Arg → ℤ → Arg → ℕ → Bool
is_timing category variable time label rate =
    not (is_empty category)
    && is_text category
    && not (is_empty variable)
    && is_text variable
    && elim time [ pos n ↦ true | negsuc n ↦ false ]
    && leb rate 100
    && (is_missing label || is_text label && not (is_empty label))

unfoldable pub track_timing : Arg → Arg → ℤ → Arg → Option ℕ → Tracker → Bool × Tracker
unfolding is_timing make
track_timing category variable time label rate t =
    let r : ℕ = elim rate [ some n ↦ n | none ↦ t.speed_rate ] in
    let hit : Hit = timing_hit (record {
      group = category;
      timed = variable;
      time = elim time [ pos n ↦ n | negsuc n ↦ 0 ];
      note = label;
    }) in
    if ltb (t.visitor % 100) r && is_timing category variable time label r
    then (true, make hit t)
    else (false, t)

-- `Ga`; without a target it is the page itself, which is the last argument.
unfoldable pub track_social : String → String → String → String → String → Tracker → Bool × Tracker
unfolding make
track_social network action target of href t =
    let hit = social_hit (record {
      network = network;
      deed = action;
      target = if str_eq target "" then href else target;
      page = if str_eq of "" then t.page else some of;
    }) in
    if str_eq network "" || str_eq action "" then (false, t) else (true, make hit t)

-- `Ia`, `Ba`
unfoldable pub track_trans : Tracker → Tracker
unfolding make
track_trans t = make trans_hit t

unfoldable pub set_var : String → Tracker → Tracker
unfolding make
set_var a t = if str_eq a "" then t else make var_hit (record t { user_var = a })

-- A map of numbers with one more entry.
unfoldable pub put_at {ℓ} : {A : Type ℓ} → ℕ → Option A → (ℕ → Option A) → ℕ → Option A
put_at i a f j = if i == j then a else f j

-- The `length` of a text: its code units, of which a character beyond the first 65536 has two.
unfoldable pub units : String → ℕ
units Prim.Native.String.[] = 0
units (Prim.Native.String.◌∷◌ c s) = (if ltb 65535 (code c) then 2 else 1) + units s

unfoldable pub put_named {ℓ} :
    {A : Type ℓ} → String → Option A → (String → Option A) → String → Option A
put_named k a f j = if str_eq k j then a else f j

unfoldable pub put_slot : Slot → Option CustomVar → Tracker → Tracker
unfolding put_at put_named
put_slot (numbered i) v t = record t { vars = put_at i v t.vars }
put_slot (named k) v t = record t { named_vars = put_named k v t.named_vars }

-- `0>=a||a>e.get(yb)`, which a text that is no number passes.
unfoldable pub is_refused : Slot → ℕ → Bool
is_refused (numbered i) most = i == 0 || ltb most i
is_refused (named k) most = false

-- `wa`, for texts; what is not a scope is 3.
unfoldable pub set_custom_var : Slot → String → String → ℕ → Tracker → Bool × Tracker
unfolding put_slot is_refused units
set_custom_var i name value scope t =
    let kept = if scope == 1 || scope == 2 then scope else 3 in
    let v = some (record { name = name; value = value; scope = kept }) in
    if is_refused i t.max_vars
    then (false, t)
    else if str_eq name "" || str_eq value "" || ltb 128 (units name + units value)
    then (false, t)
    else (true, put_slot i v t)

-- `ka`, `ra`
unfoldable pub delete_custom_var : Slot → Tracker → Tracker
unfolding put_slot
delete_custom_var i t = put_slot i none t

unfoldable pub var_at : Slot → Tracker → Option CustomVar
var_at (numbered i) t = t.vars i
var_at (named k) t = t.named_vars k

unfoldable pub visitor_custom_var : Slot → Tracker → Option String
unfolding var_at
visitor_custom_var i t = elim (var_at i t) [
  | none ↦ none
  | some v ↦ if v.scope == 1 then some v.value else none
]

-- `_setMaxCustomVariables`, of a number.
unfoldable pub set_max_vars : ℕ → Tracker → Tracker
set_max_vars n t = record t { max_vars = n }

-- `ib`, with the extension as a text.
unfoldable pub send_x_event : String → Tracker → Tracker
unfolding make
send_x_event extension t = make (extension_hit extension) t

-- `ya`
unfoldable pub set_page_group : ℕ → String → Tracker → Tracker
unfolding put_at
set_page_group i a t =
    if ltb 0 i && leb i 5 && not (str_eq a "")
    then record t { page_groups = put_at i (some a) t.page_groups }
    else t

-- `ca`, `ba`, `da`
unfoldable pub clear_ignored_ref : Tracker → Tracker
clear_ignored_ref t = record t { ignored_sites = [] }

unfoldable pub clear_ignored_organic : Tracker → Tracker
clear_ignored_organic t = record t { ignored_words = [] }

unfoldable pub clear_organic : Tracker → Tracker
clear_organic t = record t { engines = [] }

-- `addEventListener`, `removeEventListener`: the first that is the same.
unfoldable pub add_event_listener : Bool → ℕ → Tracker → Tracker
add_event_listener of_hit f t =
    if of_hit
    then record t { on_hit = t.on_hit ++ f ∷ [] }
    else record t { on_load = t.on_load ++ f ∷ [] }

unfoldable pub remove_first : ℕ → List ℕ → List ℕ
remove_first f [] = []
remove_first f (g ∷ gs) = let rest = remove_first f gs in if g == f then gs else g ∷ rest

unfoldable pub remove_event_listener : Bool → ℕ → Tracker → Tracker
unfolding remove_first
remove_event_listener of_hit f t =
    if of_hit
    then record t { on_hit = remove_first f t.on_hit }
    else record t { on_load = remove_first f t.on_load }

pub data Call : Type 0 where
  pageview : Option String → Call
  event_call : Arg → Arg → Arg → Arg → Bool → Call
  timing_call : Arg → Arg → ℤ → Arg → Option ℕ → Call
  social_call : String → String → String → String → String → Call
  trans_call : Call
  var_call : String → Call
  custom : Slot → String → String → ℕ → Call
  delete : Slot → Call
  most_vars : ℕ → Call
  x_event : String → Call
  group_call : ℕ → String → Call

pub step : Call → Tracker → Tracker
unfolding track_pageview track_event track_timing track_social track_trans set_var set_custom_var
    delete_custom_var set_page_group set_max_vars send_x_event
step (pageview a) t = track_pageview a t
step (event_call c a l v q) t = (track_event c a l v q t).1
step (timing_call c v n l r) t = (track_timing c v n l r t).1
step (social_call n a g p h) t = (track_social n a g p h t).1
step trans_call t = track_trans t
step (var_call a) t = set_var a t
step (custom i n v s) t = (set_custom_var i n v s t).1
step (delete i) t = delete_custom_var i t
step (most_vars n) t = set_max_vars n t
step (x_event e) t = send_x_event e t
step (group_call i a) t = set_page_group i a t

pub run : List Call → Tracker → Tracker
unfolding step
run [] t = t
run (c ∷ cs) t = run cs (step c t)
