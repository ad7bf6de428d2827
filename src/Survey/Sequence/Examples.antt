-- ===== src/Survey/Sequence/Examples.antt =====
-- A prompt with three questions and a supplemental one.
use demolition_app.Base.{◌≤◌, ◌==◌, ℕ, ◌≡◌, refl, true, false, String, none, List, [], ◌∷◌, arith}
use demolition_app.Survey.Sequence.{
  Item, Prompt, Input, response, failed_threshold, faded, view, unload, run, is_asking,
}
use demolition_app.Survey.Sequence.Numbering.{
  Entry, longform, single, load, number_items, lengths, count_items, is_counted, number,
  number_item, raise_free, set_totals, load-reordered,
}
use demolition_app.Survey.Sequence.Progress.{run-position}
use demolition_app.Survey.Sequence.Beacons.{told, run-told}
use demolition_app.Survey.Sequence.Ending.{is_over, answer_pages, answer_pages-is_over}

abbrev item : String → Item
item type = record { type = type; has_threshold = false; position = 1; total = 1; fresh = false }

abbrev items : List Item
items = item "permissions" ∷ item "multi" ∷ item "open-text" ∷ []

abbrev groups : List (List Item)
groups = (item "rating" ∷ []) ∷ []

abbrev numbered : String → ℕ → Item
numbered type position = record {
  type = type;
  has_threshold = false;
  position = position;
  total = 3;
  fresh = position == 1;
}

-- The numbered questions, as the prompt shows the first one.
abbrev prompt : Prompt
prompt = record {
  current = record (item "permissions") { total = 3 };
  following = numbered "multi" 1 ∷ numbered "open-text" 2 ∷ [];
  in_main = true;
  index = 0;
  later = groups;
  answered = 0;
  sent = false;
  active = true;
  viewed = false;
  watching = true;
  left = false;
  fading = false;
  keeps_view = true;
  long = false;
  free = 1;
  has_url = true;
  every = false;
  hats = false;
  promoting = false;
  closed = false;
  beacons = [];
  shown = 1;
}

abbrev inputs : List Input
inputs =
    view true true true
    ∷ response
    ∷ response
    ∷ faded
    ∷ unload
    ∷ failed_threshold
    ∷ faded
    ∷ response
    ∷ []

numbers : number_items false 1 items groups ≡ (1, prompt.current ∷ prompt.following)
unfolding number_items number count_items raise_free set_totals lengths is_counted number_item
numbers = refl

abbrev entry : Entry
entry = record { type = "multi"; has_threshold = false }

load-reordered_example :
    load (longform (entry ∷ entry ∷ []) (1 ∷ 0 ∷ [])) (single entry ∷ []) ≡ none
load-reordered_example = load-reordered (entry ∷ entry ∷ []) 0 (0 ∷ []) entry []

run-position_example : (run inputs prompt).current.position ≤ (run inputs prompt).current.total
unfolding lengths
run-position_example =
    run-position inputs prompt refl
      ((omega arith, omega arith), ((omega arith, omega arith), ((omega arith, omega arith), tt)))

run-told_example : told (run inputs prompt).beacons ≤ (run inputs prompt).shown
run-told_example = run-told inputs prompt refl (omega arith)

answer_pages-is_over_example : is_over (answer_pages 5 prompt) ≡ true
unfolding is_asking
answer_pages-is_over_example = answer_pages-is_over 5 prompt refl (omega arith)
