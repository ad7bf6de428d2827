-- ===== src/Tags/Waiting.antt =====
-- What waits for the page, `Ag`, `Cg`, `Hg`, `Nb`, and for a script, `bb`. A function is a number.
pub mod Complete
mod Examples
use demolition_app.Base.{
  ℕ, suc, ◌+◌, ltb, Bool, true, false, not, ◌&&◌, ◌||◌, if◌then◌else◌, List, [], ◌∷◌, ◌++◌,
}

pub data ReadyState : Type 0 where
  loading interactive complete : ReadyState

abbrev pub is_complete : ReadyState → Bool
is_complete s = elim s [ complete ↦ true | _ ↦ false ]

abbrev pub is_interactive : ReadyState → Bool
is_interactive s = elim s [ interactive ↦ true | _ ↦ false ]

-- `yg`; whether `zg.push` was replaced; `zg`; the functions that a timeout calls at once, in their order;
-- those that were called; `Bg`; `Fg` and `Gg`; whether the document has `createEventObject`.
pub record Page : Type 0 where
  pub ready : Bool
  pub replaced : Bool
  pub waiting : List ℕ
  pub scheduled : List ℕ
  pub called : List ℕ
  pub tries : ℕ
  pub loaded : Bool
  pub at_load : List ℕ
  pub old_browser : Bool

-- `Ag`; the first argument is whether the event says that the state has changed.
unfoldable pub on_event : Bool → ReadyState → Page → Page
on_event is_change state p =
    let fires = not is_change || is_complete state || not p.old_browser && is_interactive state in
    let q = record p { replaced = true } in
    let r = record q { ready = true; scheduled = p.scheduled ++ p.waiting } in
    if p.ready then p else if fires then r else q

-- `zg.push`
unfoldable pub push : ℕ → Page → Page
push f p =
    if p.replaced
    then record p { scheduled = p.scheduled ++ f ∷ [] }
    else record p { waiting = p.waiting ++ f ∷ [] }

-- `Nb`
unfoldable pub when_ready : ℕ → Page → Page
unfolding push
when_ready f p = if p.ready then record p { called = p.called ++ f ∷ [] } else push f p

-- `Cg`: at most 140 times it is tried whether the page can be scrolled.
unfoldable pub poll : Bool → ReadyState → Page → Page
unfolding on_event
poll scrolls state p =
    let q = record p { tries = suc p.tries } in
    if not p.ready && ltb p.tries 140 then if scrolls then on_event false state q else q else p

-- `Hg`
unfoldable pub on_load : Page → Page
on_load p = if p.loaded then p else record p { loaded = true; scheduled = p.scheduled ++ p.at_load }

pub data Input : Type 0 where
  event : Bool → ReadyState → Input
  polled : Bool → ReadyState → Input
  asked : ℕ → Input

unfoldable pub step : Input → Page → Page
unfolding on_event poll when_ready
step (event c s) p = on_event c s p
step (polled b s) p = poll b s p
step (asked f) p = when_ready f p

unfoldable pub run : List Input → Page → Page
unfolding step
run [] p = p
run (i ∷ is) p = run is (step i p)

-- How many functions were asked to wait.
pub asked_count : List Input → ℕ
asked_count [] = 0
asked_count (event c s ∷ is) = asked_count is
asked_count (polled b s ∷ is) = asked_count is
asked_count (asked f ∷ is) = suc (asked_count is)

-- The states of a script: not there, put off, being loaded, there, and not to be had.
pub data Status : Type 0 where
  absent put_off fetching there failed : Status

-- A script of `vb`; `wb` and `bb`; the functions that were called or are called by a timeout; how often it
-- was asked for.
pub record Script : Type 0 where
  pub status : Status
  pub on_success : List ℕ
  pub on_failure : List ℕ
  pub called : List ℕ
  pub fetches : ℕ

-- The script once it is asked for.
pub ask : Script → Script
ask s = elim s.status [
  | absent ↦ record s { status = fetching; fetches = suc s.fetches }
  | put_off ↦ record s { status = there; fetches = suc s.fetches }
  | fetching ↦ s
  | there ↦ s
  | failed ↦ s
]

pub wait : ℕ → ℕ → Script → Script
wait f g s = elim s.status [
  | there ↦ record s { called = f ∷ s.called }
  | failed ↦ record s { called = g ∷ s.called }
  | fetching ↦ record s { on_success = f ∷ s.on_success; on_failure = g ∷ s.on_failure }
  | absent ↦ s
  | put_off ↦ s
]

-- `bb`, with a function for either end.
unfoldable pub load : ℕ → ℕ → Script → Script
unfolding ask wait
load f g s = wait f g (ask s)

-- The end of the fetch.
unfoldable pub on_end : Bool → Script → Script
on_end ok s = elim s.status [
  | fetching ↦
      if ok
      then record s { status = there; called = s.on_success ++ s.called }
      else record s { status = failed; called = s.on_failure ++ s.called }
  | absent ↦ s
  | put_off ↦ s
  | there ↦ s
  | failed ↦ s
]

pub data ScriptInput : Type 0 where
  wanted : ℕ → ℕ → ScriptInput
  ended : Bool → ScriptInput

unfoldable pub step_script : ScriptInput → Script → Script
unfolding load on_end
step_script (wanted f g) s = load f g s
step_script (ended ok) s = on_end ok s

unfoldable pub run_script : List ScriptInput → Script → Script
unfolding step_script
run_script [] s = s
run_script (i ∷ is) s = run_script is (step_script i s)

pub wanted_count : List ScriptInput → ℕ
wanted_count [] = 0
wanted_count (wanted f g ∷ is) = suc (wanted_count is)
wanted_count (ended ok ∷ is) = wanted_count is
