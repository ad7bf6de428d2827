-- ===== src/Prompt/ListenerMap/Examples.antt =====
-- A map in which a listener is added twice and another one is removed.
use demolition_app.Base.{ℕ, ◌≡◌, true, false, none, List, [], ◌∷◌}
use demolition_app.Prompt.ListenerMap.{Query, new_map}
use demolition_app.Prompt.ListenerMap.Valid.{Call, adds, removes, run}
use demolition_app.Prompt.ListenerMap.Refines.{table_of, table_run, run-refines}

abbrev query : ℕ → Query
query n = record { callback = n; capture = false; scope = none }

abbrev calls : List Call
calls =
    adds 1 "click" (query 5) true
    ∷ adds 2 "click" (query 6) false
    ∷ adds 3 "click" (query 5) false
    ∷ adds 3 "load" (query 5) false
    ∷ removes "click" (query 6)
    ∷ []

run-refines_example :
    table_of (run calls new_map) "click" (query 5) ≡ table_run calls (λ t q. none) "click" (query 5)
run-refines_example = run-refines calls "click" (query 5)
