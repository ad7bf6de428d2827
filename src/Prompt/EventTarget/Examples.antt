-- ===== src/Prompt/EventTarget/Examples.antt =====
-- An event at a target within another one.
use demolition_app.Base.{
  ℕ, ◌≡◌, ◌++◌, ◌==◌, refl, Bool, true, false, some, none, List, [], ◌∷◌, if◌then◌else◌,
}
use demolition_app.Base.Dict.{lookup}
use demolition_app.Prompt.ListenerMap.{Listener, ListenerMap, list_at, holds, place_of}
use demolition_app.Prompt.EventTarget.{World, ancestors, dispatch}
use demolition_app.Prompt.EventTarget.Route.{IsQuiet, Steady, backwards, route, dispatch-route}

abbrev listener : ℕ → Bool → Listener
listener n capture = record {
  key = n;
  kind = "click";
  query = record { callback = n; capture = capture; scope = none };
  once = false;
}

abbrev with_click : List Listener → ListenerMap
with_click ls = record { lists = ("click", ls) ∷ []; count = 1 }

-- The target 0 within the target 1.
abbrev maps : ℕ → ListenerMap
maps t =
    if t == 0
    then with_click (listener 1 false ∷ [])
    else with_click (listener 2 true ∷ listener 3 false ∷ [])

abbrev world : World
world = record {
  maps = maps;
  parents = λ t. if t == 0 then some 1 else none;
  last_key = 3;
  stopped = true;
  return_value = true;
  called = [];
}

abbrev does_nothing : Listener → World → World × Bool
does_nothing l w = (w, true)

does_nothing-IsQuiet : IsQuiet does_nothing
does_nothing-IsQuiet = record {
  maps = λ l w. refl;
  parents = λ l w. refl;
  stopped = λ l w. refl;
  called = λ l w. refl;
}

parents_of : ancestors (world.parents 0) world.parents 998 ≡ some (1 ∷ [])
unfolding ancestors
parents_of = refl

world-Steady : Steady "click" (0 ∷ 1 ∷ []) maps
unfolding Steady list_at holds place_of lookup
world-Steady = (((refl, refl), tt), (((refl, refl), ((refl, refl), tt)), tt))

dispatch-route_example :
    (w' : World) × (b : Bool) × (dispatch does_nothing "click" 0 world ≡ some (w', b))
    × (w'.maps ≡ maps)
    × (w'.called ≡ backwards (route "click" 0 (1 ∷ []) maps) ++ [])
dispatch-route_example =
    dispatch-route does_nothing "click" 0 (1 ∷ []) world does_nothing-IsQuiet parents_of
      world-Steady
