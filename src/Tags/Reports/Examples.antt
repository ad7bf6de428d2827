-- ===== src/Tags/Reports/Examples.antt =====
-- Two events, of which tags are told, and one report left at all.
use demolition_app.Base.{◌+◌, ◌*◌, ◌≤◌, ◌≡◌, false, true, none, List, [], ◌∷◌}
use demolition_app.Tags.Reports.{Reporter, Input, told, begun, timeout, second, run, seconds}
use demolition_app.Tags.Reports.Budget.{run-images}

abbrev reporter : Reporter
reporter = record {
  current = none;
  reported = [];
  dropped = [];
  parts = [];
  timed = false;
  second_left = 2;
  total_left = 1;
  images = 0;
}

abbrev inputs : List (Input (λ r. 10) true)
inputs = begun 0 ∷ told 0 "1ua" ∷ timeout ∷ second ∷ begun 1 ∷ told 1 "1c" ∷ timeout ∷ []

run-images_example :
    ((run (λ r. 10) true inputs reporter).images + (run (λ r. 10) true inputs reporter).total_left
      ≡ 0 + 1)
    × ((run (λ r. 10) true inputs reporter).images ≤ 0 + 2 + 2 * seconds (λ r. 10) true inputs)
run-images_example = run-images (λ r. 10) true inputs reporter
