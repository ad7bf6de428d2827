-- ===== src/Tags/Permissions.antt =====
-- Which kinds of tags may run: `Yh`, with the lists that the page gives and what they imply.
pub mod Cached
mod Examples
use demolition_app.Base.{
  Bool, true, false, not, ◌&&◌, ◌||◌, if◌then◌else◌, String, Option, none, some, List, [], ◌∷◌,
  ◌++◌,
}
use demolition_app.Base.Dict.{Dict, lookup, insert, has_text}

-- `sj`: what else a kind of the whitelist allows.
abbrev pub allowed_with : Dict (List String)
allowed_with =
    ("customPixels", "nonGooglePixels" ∷ [])
    ∷ (
      "html",
      "customScripts" ∷ "customPixels" ∷ "nonGooglePixels" ∷ "nonGoogleScripts" ∷ "nonGoogleIframes"
          ∷ [],
    )
    ∷ (
      "customScripts",
      "html" ∷ "customPixels" ∷ "nonGooglePixels" ∷ "nonGoogleScripts" ∷ "nonGoogleIframes" ∷ [],
    )
    ∷ ("nonGooglePixels", [])
    ∷ ("nonGoogleScripts", "nonGooglePixels" ∷ [])
    ∷ ("nonGoogleIframes", "nonGooglePixels" ∷ [])
    ∷ []

-- `tj`: what else a kind of the blacklist forbids.
abbrev pub forbidden_with : Dict (List String)
forbidden_with =
    ("customPixels", "customScripts" ∷ "html" ∷ [])
    ∷ ("html", "customScripts" ∷ [])
    ∷ ("customScripts", "html" ∷ [])
    ∷ (
      "nonGooglePixels",
      "customPixels" ∷ "customScripts" ∷ "html" ∷ "nonGoogleScripts" ∷ "nonGoogleIframes" ∷ [],
    )
    ∷ ("nonGoogleScripts", "customScripts" ∷ "html" ∷ [])
    ∷ ("nonGoogleIframes", "customScripts" ∷ "html" ∷ "nonGoogleScripts" ∷ [])
    ∷ []

pub or_none_of : Option (List String) → List String
or_none_of none = []
or_none_of (some ss) = ss

-- `uj`
unfoldable pub expand : List String → Dict (List String) → List String
unfolding or_none_of
expand [] implied = []
expand (s ∷ ss) implied = s ∷ or_none_of (lookup s implied) ++ expand ss implied

-- What the page says: its whitelist, if it has one, its blacklist, and whether it is one of Google's.
pub record Lists : Type 0 where
  pub whitelist : Option (List String)
  pub blacklist : List String
  pub own_host : Bool

unfoldable pub forbidden : Lists → List String
unfolding expand
forbidden l =
    expand
      (if l.own_host
        then l.blacklist ++ "nonGooglePixels" ∷ "nonGoogleScripts" ∷ []
        else l.blacklist)
      forbidden_with

pub all_in : List String → List String → Bool
all_in [] ss = true
all_in (n ∷ ns) ss = has_text ss n && all_in ns ss

pub any_in : List String → List String → Bool
any_in [] ss = false
any_in (n ∷ ns) ss = has_text ss n || any_in ns ss

pub is_empty : List String → Bool
is_empty [] = true
is_empty (s ∷ ss) = false

-- Whether the whitelist allows a kind: by its name, or by all that it needs, where it needs something.
unfoldable pub is_allowed : Option (List String) → String → List String → Bool
unfolding expand all_in is_empty
is_allowed none name needs = true
is_allowed (some ss) name needs =
    let allowed = expand ss allowed_with in
    has_text allowed name || not (is_empty needs) && all_in needs allowed

-- The zones of the page say whether they allow a kind, by its name.
module _ (zone : String → Bool) (l : Lists) where
  -- The result of the function of `Yh`, that a kind is denied, without what it keeps.
  unfoldable pub is_denied : String → List String → Bool
  unfolding is_allowed any_in forbidden
  is_denied name needs =
      not (zone name && is_allowed l.whitelist name needs)
      || (has_text (forbidden l) name || any_in needs (forbidden l))

  pub record Checked : Type 0 where
    pub denied : Bool
    pub cache : Dict Bool

  pub of_cache : Option Bool → String → List String → Dict Bool → Checked
  unfolding is_denied
  of_cache (some b) name needs cache = record { denied = b; cache = cache }
  of_cache none name needs cache = record {
    denied = is_denied name needs;
    cache = insert name (is_denied name needs) cache;
  }

  -- The function of `Yh`, with what it keeps by the names.
  pub check : String → List String → Dict Bool → Checked
  unfolding of_cache
  check name needs cache = of_cache (lookup name cache) name needs cache

  -- What it says of several tags; the kinds and their needs.
  pub check_all : List (String × List String) → Dict Bool → List Bool
  unfolding check
  check_all [] cache = []
  check_all ((name, needs) ∷ ts) cache =
      let c = check name needs cache in c.denied ∷ check_all ts c.cache
