-- ===== src/Survey/Site/Examples.antt =====
-- A survey in the newer design that covers the page.
use demolition_app.Base.{◌≡◌, refl, true, false, List, [], ◌∷◌, none, arith}
use demolition_app.Survey.Sequence.{Prompt, Item}
use demolition_app.Survey.Site.{
  Site, Input, toggled, drawn, finished, left, escaped, resized, run, on_close_call,
}
use demolition_app.Survey.Site.Locked.{
  IsFree, run-IsFree, toggles, resized-toggled, on_close_call-silent,
}

abbrev question : Item
question = record { type = "rating"; has_threshold = false; position = 2; total = 2; fresh = false }

abbrev prompt : Prompt
prompt = record {
  current = question;
  following = [];
  in_main = true;
  index = 1;
  later = [];
  answered = 1;
  sent = false;
  active = true;
  viewed = true;
  watching = false;
  left = false;
  fading = false;
  keeps_view = true;
  long = false;
  free = 1;
  has_url = true;
  every = false;
  hats = true;
  promoting = false;
  closed = false;
  beacons = [];
  shown = 2;
}

abbrev site : Site
site = record {
  prompt = prompt;
  collapsed = false;
  modal = true;
  sized = true;
  small = false;
  modern = true;
  no_shadow = false;
  begins_open = false;
  webview = false;
  begins_collapsed = false;
  first = true;
  styled = false;
  locked = false;
  closeable = true;
  thanks = "normal";
  thanked = false;
  stays = false;
  fading = false;
  closed_by = none;
  disposed = false;
}

abbrev inputs : List Input
inputs =
    drawn
    ∷ toggled
    ∷ toggled
    ∷ resized false
    ∷ toggled
    ∷ left
    ∷ escaped 27
    ∷ finished
    ∷ toggled
    ∷ []

run-IsFree_example : IsFree (run inputs site)
run-IsFree_example = run-IsFree inputs site (record {
  open_only = λ z h. absurd (ground (arith, h));
  styled_only = λ h. absurd (ground (arith, h));
  closed_only = λ _. refl;
})

on_close_call-silent_example : (on_close_call false site).prompt.beacons ≡ site.prompt.beacons
on_close_call-silent_example = on_close_call-silent site

abbrev covering : Site
covering = record site { sized = false; small = true; styled = true; locked = true }

resized-toggled_example : (run (resized false ∷ toggles 3) covering).locked ≡ true
resized-toggled_example = resized-toggled 3 covering refl refl refl
