-- ===== src/Prompt/Examples.antt =====
-- The theorems of the script's parts at concrete values.
use demolition_app.Base.{zero, suc, List, [], ◌∷◌, ℕ, true, false, arith}
use demolition_app.Prompt.XhrIo
use demolition_app.Prompt.XhrIo.{new_xhr}
use demolition_app.Prompt.XhrIo.Counts
use demolition_app.Prompt.XhrIo.Counts.{call_send, call_ready, call_time_out, Counted, started_by}
use demolition_app.Prompt.EventTypes
use demolition_app.Prompt.EventTypes.{event_types, mouse_types}
use demolition_app.Prompt.RateThrottler
use demolition_app.Prompt.RateThrottler.{accepted, new_throttle}
use demolition_app.Prompt.RateThrottler.Hourly.{Spaced}
use demolition_app.Prompt.StructsMap.{StructsMap, empty, set}
use demolition_app.Prompt.StructsMap.Valid.{IsValid, empty-IsValid, set-IsValid}
use demolition_app.Prompt.Keys.{Browser}

abbrev ages : StructsMap ℕ
ages = set (set empty "ann" 30) "bob" 41

ages-IsValid : IsValid ages
ages-IsValid = set-IsValid _ "bob" 41 (set-IsValid empty "ann" 30 empty-IsValid)

abbrev more : StructsMap ℕ
more = set empty "bob" 7

more-IsValid : IsValid more
more-IsValid = set-IsValid empty "bob" 7 empty-IsValid

abbrev chrome : Browser
chrome = record {
  webkit = true;
  edge = false;
  gecko = false;
  ie = false;
  opera = false;
  mac = true;
  is_525 = true;
}

abbrev browser : XhrIo.Browser
browser = record {
  open_throws = false;
  send_throws = false;
  own_timeout = false;
  local_errors = false;
}

abbrev calls : List Counts.Input
calls =
    call_send browser 0 "https://example.org" "GET"
    ∷ call_ready browser true 4 404
    ∷ call_send browser 60000 "https://example.org" "POST"
    ∷ call_time_out
    ∷ []

abbrev webkit : EventTypes.Browser
webkit = record { webkit = true; opera = false; ie = false; pointer = true; ms_pointer = false }

abbrev two_an_hour : RateThrottler.Throttle
two_an_hour = record { limit = 2; times = 5 ∷ [] }

one-Spaced : Spaced 2 (5 ∷ [])
one-Spaced zero a b ea eb = absurd (ground (arith, eb))
one-Spaced (suc k) a b ea eb = absurd (ground (arith, ea))
