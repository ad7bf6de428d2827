-- ===== src/Tracker/Visit/Examples.antt =====
-- A visit with three events left, and the cookies of it.
use demolition_app.Base.{ℕ, true, false, some, List, [], ◌∷◌}
use demolition_app.Tracker.Visit.{Visit, HitType, event, page, trans}

abbrev visit : Visit
visit = record {
  hash = 1;
  start = 5;
  visitor = some 7;
  first = 3;
  last = 4;
  current = 5;
  count = 3;
  hits = 2;
  tokens = 3;
  refilled = 5;
  is_new = false;
  begun = true;
  is_unknown = false;
  expired = false;
  linked = false;
  new_campaign = false;
  campaign_visit = 0;
}

abbrev hits : List (HitType × ℕ)
hits =
    (event, 5100)
    ∷ (event, 5200)
    ∷ (page, 5300)
    ∷ (event, 6400)
    ∷ (trans, 6500)
    ∷ (event, 6600)
    ∷ []

abbrev unread : Visit
unread = record visit { visitor = some 0; first = 0; hits = 0 }
