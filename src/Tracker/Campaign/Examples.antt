-- ===== src/Tracker/Campaign/Examples.antt =====
-- A visitor who came by a search and comes back by hand.
use demolition_app.Base.{◌≡◌, refl, true, false, none, some, []}
use demolition_app.Tracker.Campaign.{plain_campaign, track}
use demolition_app.Tracker.Campaign.Untagged.{track-untagged}
use demolition_app.Tracker.Source.{Tags, Referrer, Source}

abbrev untagged : Tags
untagged = record {
  id = none;
  source = none;
  click = none;
  click_source = none;
  display_click = none;
  name = none;
  medium = none;
  term = none;
  content = none;
  no_override = none;
}

abbrev no_referrer : Referrer
no_referrer = record {
  valid = false;
  site_search = false;
  host = "";
  words = λ s. none;
  path = "";
  url = "-";
}

abbrev source : Source
source = record {
  campaign = plain_campaign (λ s. s) "google" "(organic)" "organic" (some "maps") none;
  ad_click = none;
  ad_source = none;
  tracks = true;
  linked = false;
  begun = true;
  engines = [];
  ignored_words = [];
  ignored_sites = [];
  changed = false;
  since = 3;
  visit = 1;
  responses = 1;
  now = 5;
  visits = 2;
}

abbrev unknown : Source
unknown = record source { campaign = plain_campaign (λ s. s) "" "(not set)" "(not set)" none none }

track-untagged_example :
    (track (λ s. s) untagged no_referrer unknown).campaign
    ≡ plain_campaign (λ s. s) "(direct)" "(direct)" "(none)" none none
track-untagged_example =
    track-untagged (λ s. s) untagged no_referrer unknown
      (record { id = refl; source = refl; click = refl; click_source = refl; display_click = refl })
      refl refl refl refl
