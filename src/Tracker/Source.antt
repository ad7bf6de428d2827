-- ===== src/Tracker/Source.antt =====
-- What is kept of where a visit comes from: the campaign, the referrer, the search engines, and the address.
use demolition_app.Base.{ℕ, Bool, String, Option, List}

-- `ic`, `nc`, `S`, `kc`, `lc`, `jc`, `oc`, `pc` and `qc`.
pub record Campaign : Type 0 where
  pub id : Option String
  pub source : Option String
  pub click : Option String
  pub click_source : Option String
  pub display_click : Option String
  pub name : Option String
  pub medium : Option String
  pub term : Option String
  pub content : Option String

-- The address of the referrer: whether it is one, whether it is Google's search of a site, its host, the
-- values of its query by their keys, its path and its text.
pub record Referrer : Type 0 where
  pub valid : Bool
  pub site_search : Bool
  pub host : String
  pub words : String → Option (List String)
  pub path : String
  pub url : String

-- A search engine: a part of its host, the key of the words, its name and a part of its address, where it
-- has these.
pub record Engine : Type 0 where
  pub site : String
  pub key : String
  pub name : Option String
  pub part : Option String

-- The values of the address of the page, by the keys of the tracker, the last one where there are several.
pub record Tags : Type 0 where
  pub id : Option String
  pub source : Option String
  pub click : Option String
  pub click_source : Option String
  pub display_click : Option String
  pub name : Option String
  pub medium : Option String
  pub term : Option String
  pub content : Option String
  pub no_override : Option String

-- The campaign; `w`, `x`; `kb`, `Mc`, `ac`; `zb`, `Ab`, `Bb`; `hc`, `ec`, `fc`, `gc`; the time and number
-- of the visit.
pub record Source : Type 0 where
  pub campaign : Campaign
  pub ad_click : Option String
  pub ad_source : Option String
  pub tracks : Bool
  pub linked : Bool
  pub begun : Bool
  pub engines : List Engine
  pub ignored_words : List String
  pub ignored_sites : List String
  pub changed : Bool
  pub since : ℕ
  pub visit : ℕ
  pub responses : ℕ
  pub now : ℕ
  pub visits : ℕ
