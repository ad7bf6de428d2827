-- ===== src/Tracker/Calls/Examples.antt =====
-- A new tracker, and calls that it takes and refuses.
use demolition_app.Base.{false, some, none, List, [], ◌∷◌}
use demolition_app.Base.Int.{pos, negsuc}
use demolition_app.Tracker.Calls.{
  new_tracker, Call, pageview, event_call, timing_call, social_call, trans_call, var_call, custom,
  delete, most_vars, x_event, group_call,
}
use demolition_app.Tracker.Hits.{missing, text, whole, numbered, named, Tracker}

abbrev tracker : Tracker
tracker = new_tracker (λ s. s) "example.com" 42 (("google" ∷ "q" ∷ []) ∷ []) "" "UA-1-1" ""

abbrev calls : List Call
calls =
    pageview (some "/home")
    ∷ event_call (text "map") (text "open") missing (whole (pos 3)) false
    ∷ event_call (text "") (text "open") missing missing false
    ∷ timing_call (text "map") (text "load") (pos 120) missing (some 50)
    ∷ timing_call (text "map") (text "load") (negsuc 1) missing none
    ∷ social_call "twitter" "follow" "" "" "/home"
    ∷ trans_call
    ∷ var_call "a"
    ∷ custom (numbered 1) "team" "red" 1
    ∷ custom (named "undefined") "team" "red" 1
    ∷ most_vars 60
    ∷ custom (numbered 51) "team" "red" 1
    ∷ delete (numbered 1)
    ∷ x_event "5(map*open)"
    ∷ group_call 2 "maps"
    ∷ []
