-- ===== src/Prompt/EventTarget.antt =====
-- The event target `K`: how an event goes from the outermost ancestor to its target and back.
pub mod Route
mod Examples
use demolition_app.Base.{
  ℕ, zero, suc, ◌==◌, String, Bool, true, false, not, ◌&&◌, Option, some, none, List, [], ◌∷◌, ◌++◌,
  if◌then◌else◌, ◌>>=◌,
}
use demolition_app.Base.Dict.{has}
use demolition_app.Prompt.ListenerMap.{
  Query, Listener, ListenerMap, same_bool, list_at, add, remove, remove_listener, remove_all, holds,
}

-- `Nb` and `Gk` of each event target, a number; `ae`; `oe` and `no` of the event that is
-- dispatched; and the listeners that were called, the newest first.
pub record World : Type 0 where
  pub maps : ℕ → ListenerMap
  pub parents : ℕ → Option ℕ
  pub last_key : ℕ
  pub stopped : Bool
  pub return_value : Bool
  pub called : List Listener

abbrev pub set_map : ℕ → ListenerMap → World → World
set_map t m w = record w { maps = λ s. if s == t then m else w.maps s }

-- `g` and `be`: a listener that is called always, or once; its key is the next one.
pub listen : ℕ → String → Query → Bool → World → World
listen t kind q once w =
    set_map t (add (suc w.last_key) kind q once (w.maps t)) (record w { last_key = suc w.last_key })

-- `da`
pub unlisten : ℕ → String → Query → World → World × Bool
unlisten t kind q w = let r = remove kind q (w.maps t) in (set_map t r.0 w, r.1)

-- `Mk`
pub unlisten_all : ℕ → Option String → World → World
unlisten_all t kind w = set_map t (remove_all kind (w.maps t)) w

-- The loop of `dispatchEvent` over the ancestors, from the nearest; none when the assertion fails,
-- which the last argument counts down to.
pub ancestors : Option ℕ → (ℕ → Option ℕ) → ℕ → Option (List ℕ)
ancestors none parents n = some []
ancestors (some p) parents zero = none
ancestors (some p) parents (suc n) = do ps ← ancestors (parents p) parents n; some (p ∷ ps)

abbrev pub reverse_onto : List ℕ → List ℕ → List ℕ
reverse_onto [] ys = ys
reverse_onto (x ∷ xs) ys = reverse_onto xs (x ∷ ys)

-- `call` is what the callback of a listener does, and whether it returned another value than false.
module _ (call : Listener → World → World × Bool) where
  -- `Qg&&fe(Nb,h)`, and the call.
  pub call_listener : ℕ → Listener → World → World × Bool
  call_listener t l w₀ =
      let w = if l.once then set_map t (remove_listener l (w₀.maps t)).0 w₀ else w₀ in
      call l (record w { called = l ∷ w.called })

  -- The loop of `we` over the copy of the list.
  pub fire_each : ℕ → Bool → List Listener → World → World × Bool
  unfolding call_listener
  fire_each t capture [] w = (w, true)
  fire_each t capture (l ∷ ls) w =
      let here = call_listener t l w in
      let later = fire_each t capture ls here.0 in
      let others = fire_each t capture ls w in
      if holds l (w.maps t) && same_bool l.query.capture capture
      then (later.0, here.1 && later.1)
      else others

  -- `we`
  pub fire : String → Bool → ℕ → World → World × Bool
  unfolding fire_each
  fire kind capture t w =
      let r = fire_each t capture (list_at kind (w.maps t)) w in
      if has kind (w.maps t).lists then (r.0, r.1 && r.0.return_value) else (w, true)

  -- The loops of `dispatchEvent` over targets.
  pub fire_all : String → Bool → List ℕ → World → World × Bool
  unfolding fire
  fire_all kind capture [] w = (w, true)
  fire_all kind capture (t ∷ ts) w =
      let here = fire kind capture t w in
      let rest = fire_all kind capture ts here.0 in
      if w.stopped then (w, true) else (rest.0, here.1 && rest.1)

  -- `dispatchEvent`, of a new event; none when there are too many ancestors.
  pub dispatch : String → ℕ → World → Option (World × Bool)
  unfolding ancestors fire_all
  dispatch kind t w₀ = do
    let w = record w₀ { stopped = false; return_value = true }
    c ← ancestors (w.parents t) w.parents 998
    let down = fire_all kind true (reverse_onto c []) w
    let at = fire_all kind true (t ∷ []) down.0
    let back = fire_all kind false (t ∷ []) at.0
    let up = fire_all kind false c back.0
    some (up.0, down.1 && at.1 && back.1 && up.1)
