-- ===== src/Tags/Permissions/Examples.antt =====
-- A page that forbids what is not Google's, and tags of which two are of a kind.
use demolition_app.Base.{
  ◌≡◌, refl, true, false, String, str_eq, if◌then◌else◌, none, List, [], ◌∷◌, map,
}
use demolition_app.Tags.Permissions.{Lists, check_all}
use demolition_app.Tags.Permissions.Cached.{denied, check_all-map}

abbrev lists : Lists
lists = record { whitelist = none; blacklist = "nonGoogleScripts" ∷ []; own_host = false }

abbrev needs : String → List String
needs name = if str_eq name "html" then "customScripts" ∷ [] else "google" ∷ []

abbrev tags : List (String × List String)
tags = ("ua", needs "ua") ∷ ("html", needs "html") ∷ ("ua", needs "ua") ∷ []

check_all-map_example :
    check_all (λ s. true) lists tags [] ≡ map (denied (λ s. true) lists needs) tags
check_all-map_example = check_all-map (λ s. true) lists needs tags (refl, (refl, (refl, tt)))
