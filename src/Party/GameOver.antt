-- ===== src/Party/GameOver.antt =====
-- GameOverViewController.swift: the verdict, the list of the winners, and the removal of the party.
pub mod Verdict
use Prim.Native.String.{◌++◌ as str_append}
use demolition_app.Base.{
  String, Option, some, none, List, [], ◌∷◌, Bool, false, ◌||◌, str_eq, if◌then◌else◌,
}
use demolition_app.Party.Database.{Effect, remove_value}

pub record GameOver : Type 0 where
  pub party_id : String
  pub did_time_expire : Bool
  pub did_capture_most_flags : Bool
  pub are_all_attackers_dead : Bool
  pub are_all_defenders_dead : Bool
  pub attackers : List String
  pub defenders : List String
  -- the texts of the two labels, `nil` at first unless the storyboard sets them
  pub winner_label : Option String
  pub winners_list : Option String

-- `for winner in … { winnersListLabel.text = winnersListLabel.text! + winner + "\n" }`
pub list_winners : List String → Option String → Option (Option String)
list_winners [] label = some label
list_winners (winner ∷ rest) none = none
list_winners (winner ∷ rest) (some label) =
    list_winners rest (some (str_append (str_append label winner) "\n"))

announce : GameOver → String → List String → Option GameOver
announce g title winners = elim (list_winners winners g.winners_list) [
  | none ↦ none
  | some label ↦ some (record g { winner_label = some title; winners_list = label })
]

-- `viewDidLoad`; `none` is the trap of `text!`.
pub view_did_load : GameOver → Option GameOver
unfolding announce
view_did_load g =
    if g.did_capture_most_flags || g.are_all_defenders_dead
    then announce g "ATTACKERS WIN!" g.attackers
    else if g.did_time_expire || g.are_all_attackers_dead
    then announce g "DEFENDERS WIN!" g.defenders
    else some g

-- `snapshot.hasChild`, for the names of the parties that the database holds.
pub has_child : List String → String → Bool
has_child [] name = false
has_child (p ∷ ps) name = str_eq p name || has_child ps name

-- `viewDidDisappear`, at a snapshot of the folder of all parties.
pub view_did_disappear : GameOver → List String → List Effect
view_did_disappear g parties =
    if has_child parties g.party_id then remove_value ("Parties" ∷ g.party_id ∷ []) ∷ [] else []
