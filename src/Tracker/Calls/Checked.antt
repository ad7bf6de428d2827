-- ===== src/Tracker/Calls/Checked.antt =====
-- What a page cannot make a tracker send or keep.
use demolition_app.Base.{
  ℕ, ◌+◌, ◌≤◌, ◌<◌, ◌≡◌, Bool, false, String, str_eq, Option, none, some, All,
}
use demolition_app.Tracker.Calls.{units, Call, most_vars}
use demolition_app.Tracker.Hits.{
  Arg, missing, minus_infinity, text, whole, Slot, numbered, named, extension_hit, CustomVar, Hit,
  page_hit, event_hit, timing_hit, social_hit, trans_hit, var_hit, Tracker,
}

-- A text that is not empty; a text or nothing; an integer, -Infinity or nothing.
abbrev pub IsFilled : Arg → Type 0
IsFilled a = elim a [ text s ↦ str_eq s "" ≡ false | _ ↦ ⊥ ]

abbrev pub IsLabel : Arg → Type 0
IsLabel a = elim a [ missing ↦ Unit | text s ↦ Unit | _ ↦ ⊥ ]

abbrev pub IsValue : Arg → Type 0
IsValue a = elim a [ missing ↦ Unit | whole n ↦ Unit | minus_infinity ↦ Unit | _ ↦ ⊥ ]

-- An event has the texts and the number that it is to have, and a social hit says who and what.
abbrev pub IsSound : Hit → Type 0
IsSound (page_hit p) = Unit
IsSound (event_hit e) = IsFilled e.category × IsFilled e.action × IsLabel e.label × IsValue e.value
IsSound (extension_hit e) = Unit
IsSound (timing_hit e) = Unit
IsSound (social_hit e) = (str_eq e.network "" ≡ false) × (str_eq e.deed "" ≡ false)
IsSound trans_hit = Unit
IsSound var_hit = Unit

-- A custom variable that is kept.
abbrev pub IsShort : CustomVar → Type 0
IsShort v = (units v.name + units v.value ≤ 128) × (0 < v.scope) × (v.scope ≤ 3)

abbrev pub IsKept : ℕ → ℕ → Option CustomVar → Type 0
IsKept most i none = Unit
IsKept most i (some v) = (0 < i) × (i ≤ most) × IsShort v

abbrev pub AllShort : Option CustomVar → Type 0
AllShort none = Unit
AllShort (some v) = IsShort v

pub record IsChecked (most : ℕ) (t : Tracker) : Type 0 where
  pub limit : t.max_vars ≤ most
  pub hits : All IsSound t.hits
  pub vars : (i : ℕ) → IsKept most i (t.vars i)
  pub named_vars : (k : String) → AllShort (t.named_vars k)

-- The most variables that a call allows.
abbrev pub Allows : ℕ → Call → Type 0
Allows most c = elim c [ most_vars n ↦ n ≤ most | _ ↦ Unit ]

-- What is put at a place is allowed there.
IsKeptAt : ℕ → Slot → Option CustomVar → Type 0
IsKeptAt most (numbered i) v = IsKept most i v
IsKeptAt most (named k) v = AllShort v

-- What a call gives is checked.
abbrev Checked : ℕ → Bool × Tracker → Type 0
Checked most r = IsChecked most r.1
