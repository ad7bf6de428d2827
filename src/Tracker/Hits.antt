-- ===== src/Tracker/Hits.antt =====
-- What a tracker `U` keeps: the hits that a page makes, and the fields that its calls set.
use demolition_app.Base.{ℕ, ◌==◌, Bool, true, false, String, str_eq, Option, List}
use demolition_app.Base.Int.{ℤ, pos, negsuc}

-- An argument: undefined or null, a text, an integer, -Infinity, or something else.
pub data Arg : Type 0 where
  missing minus_infinity other : Arg
  text : String → Arg
  whole : ℤ → Arg

-- `wd`
abbrev pub is_text : Arg → Bool
is_text a = elim a [ text s ↦ true | _ ↦ false ]

-- `xd`, which refuses Infinity only where it is positive.
abbrev pub is_whole : Arg → Bool
is_whole a = elim a [ whole n ↦ true | minus_infinity ↦ true | _ ↦ false ]

abbrev pub is_missing : Arg → Bool
is_missing a = elim a [ missing ↦ true | _ ↦ false ]

-- `"" == a`: the number 0 is equal to the empty text.
abbrev pub is_empty : Arg → Bool
is_empty a = elim a [
  | text s ↦ str_eq s ""
  | whole n ↦ elim n [ pos k ↦ k == 0 | negsuc k ↦ false ]
  | _ ↦ false
]

-- The number of a custom variable, where one that is negative is 0; or the text under which it is kept
-- where that is no number, as "undefined" is.
pub data Slot : Type 0 where
  numbered : ℕ → Slot
  named : String → Slot

-- A custom variable, with 1 for the visitor, 2 for the visit and 3 for the page.
pub record CustomVar : Type 0 where
  pub name : String
  pub value : String
  pub scope : ℕ

-- `wc`, `xc`, `yc`, `zc` and `vc`
pub record EventHit : Type 0 where
  pub category : Arg
  pub action : Arg
  pub label : Arg
  pub value : Arg
  pub quiet : Bool

-- `Ac`, `Bc` and `Cc`, with the page that the hit is of
pub record SocialHit : Type 0 where
  pub network : String
  pub deed : String
  pub target : String
  pub page : Option String

-- A timing: the category, the variable, the time, and the label.
pub record Timing : Type 0 where
  pub group : Arg
  pub timed : Arg
  pub time : ℕ
  pub note : Arg

pub data Hit : Type 0 where
  page_hit : Option String → Hit
  event_hit : EventHit → Hit
  extension_hit : String → Hit
  timing_hit : Timing → Hit
  social_hit : SocialHit → Hit
  trans_hit : Hit
  var_hit : Hit

-- `Q`, the number of the visitor; `Wa`, `$a`, `Ya`; `bb`, `P`; `vb`, `Dc`, `Ec`; `yb`, `fb`, `gb`, `hb`;
-- `zb`, `Ab`, `Bb`; `Fb` by number and by other texts; `Fc` by number; `Ic`; `Tb`; the listeners of "hit" and "load"; `H`; the
-- page where it is set for all hits; what was handed to the filters, the newest first.
pub record Tracker : Type 0 where
  pub visitor : ℕ
  pub account : String
  pub name : String
  pub namespace : String
  pub domain : String
  pub path : String
  pub sample_rate : ℕ
  pub speed_rate : ℕ
  pub max_vars : ℕ
  pub allow_linker : Bool
  pub allow_anchor : Bool
  pub allow_hash : Bool
  pub engines : List (List String)
  pub ignored_words : List String
  pub ignored_sites : List String
  pub vars : ℕ → Option CustomVar
  pub named_vars : String → Option CustomVar
  pub page_groups : ℕ → Option String
  pub dev_ids : List String
  pub user_var : String
  pub on_hit : List ℕ
  pub on_load : List ℕ
  pub last_page : Option String
  pub page : Option String
  pub hits : List Hit
