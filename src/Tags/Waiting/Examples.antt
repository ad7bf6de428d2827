-- ===== src/Tags/Waiting/Examples.antt =====
-- A page of an old browser, and functions that wait for it.
use demolition_app.Base.{◌+◌, ◌≡◌, ◌++◌, refl, true, false, List, [], ◌∷◌, arith}
use demolition_app.Tags.Waiting.{
  Page, interactive, complete, Input, event, polled, asked, asked_count, run, on_event, when_ready,
}
use demolition_app.Tags.Waiting.Complete.{Holds, run-Holds, when_ready-early}

abbrev page : Page
page = record {
  ready = false;
  replaced = false;
  waiting = 1 ∷ [];
  scheduled = [];
  called = [];
  tries = 0;
  loaded = false;
  at_load = [];
  old_browser = true;
}

page-Holds : Holds 1 page
page-Holds = record {
  before = λ _. refl;
  after = λ e. absurd (ground (arith, e));
  is_replaced = λ e. ground (arith, e);
}

abbrev inputs : List Input
inputs =
    asked 2
    ∷ event true interactive
    ∷ asked 3
    ∷ polled false interactive
    ∷ event true complete
    ∷ asked 4
    ∷ []

run-Holds_example : Holds (1 + asked_count inputs) (run inputs page)
run-Holds_example = run-Holds inputs 1 page page-Holds

when_ready-early_example :
    ((when_ready 2 (on_event true interactive page)).scheduled ≡ [] ++ 2 ∷ [])
    × ((when_ready 2 (on_event true interactive page)).ready ≡ false)
when_ready-early_example = when_ready-early 2 page refl refl
