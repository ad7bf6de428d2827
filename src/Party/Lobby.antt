-- ===== src/Party/Lobby.antt =====
-- HostLobbyViewController.swift and RegularLobbyViewController.swift: the state of a lobby screen
-- and its handlers. `none` is a trap: a forced cast, a forced unwrapping, an index out of range.
pub mod Teams
pub mod Rows
pub mod Start
pub mod Observers
pub mod Fixture
use demolition_app.Base.{
  ℕ, zero, suc, ◌+◌, ◌/◌, String, Option, some, none, List, [], ◌∷◌, ◌++◌, Bool, true, false,
  str_eq, if◌then◌else◌, length, get_elem?, map, ◌==◌,
}
use demolition_app.Party.Database.{
  DbPath, text, int, Child, Snapshot, dictionary, string, other, Effect, set_value, reload_tables,
  perform_segue, print,
}

-- The two closures that are handed to `observe`.
pub data Listener : Type 0 where
  teams game_status : Listener

pub record Lobby : Type 0 where
  pub player_name : String
  pub party_id : String
  pub custom_hash : String
  pub attackers : List String
  pub defenders : List String
  -- `teamSelector.selectedSegmentIndex`; `none` is `UISegmentedControlNoSegment`
  pub selected : Option ℕ
  -- the listeners that are registered, with the reference each one listens at
  pub observers : List (DbPath × Listener)

abbrev pub party : Lobby → DbPath → DbPath
party l p = "Parties" ∷ l.party_id ∷ p

abbrev pub teams_ref : Lobby → DbPath
teams_ref l = party l ("Teams" ∷ [])

abbrev pub global_ref : Lobby → DbPath → DbPath
global_ref l p = party l ("Global" ∷ p)

abbrev pub game_state_ref : Lobby → DbPath
game_state_ref l = global_ref l ("gameState" ∷ [])

abbrev pub player_ref : Lobby → DbPath → DbPath
player_ref l p = party l ("Players" ∷ l.custom_hash ∷ p)

-- `value[name] as! String`
pub team_at : String → List (String × Child) → Option String
team_at name [] = none
team_at name ((key, child) ∷ rest) =
    if str_eq key name
    then elim child [ string team ↦ some team | other ↦ none ]
    else team_at name rest

abbrev pub keys : List (String × Child) → List String
keys = map (λ e. e.0)

-- The body of `for name in value.allKeys`, for a team that is a string.
pub join_team : String → String → Lobby → Lobby
join_team name team l =
    if str_eq team "Attacker"
    then record l { attackers = l.attackers ++ name ∷ [] }
    else if str_eq team "Defender"
    then record l { defenders = l.defenders ++ name ∷ [] }
    else l

pub teams_loop : List (String × Child) → List String → Lobby → Option Lobby
teams_loop value [] l = some l
teams_loop value (name ∷ names) l = elim (team_at name value) [
  | none ↦ none
  | some team ↦ teams_loop value names (join_team name team l)
]

-- The teams listener.
pub on_teams : Lobby → Snapshot → Option (Lobby × List Effect)
on_teams l (dictionary value) =
    elim (teams_loop value (keys value) (record l { attackers = []; defenders = [] })) [
      | none ↦ none
      | some l' ↦ some (l', reload_tables ∷ [])
    ]
on_teams l (string _) = none
on_teams l other = none

-- The segue of the game status listener.
pub segue : Option ℕ → List Effect
segue none = []
segue (some zero) = perform_segue "attackerSegue" ∷ []
segue (some (suc zero)) = perform_segue "defenderSegue" ∷ []
segue (some (suc (suc _))) = []

-- `Int(currentTimestamp + tenMins)`, with the clock in milliseconds.
abbrev pub game_end_time : ℕ → ℕ
game_end_time now = (now + 600000) / 1000

-- The game status listener of the host, at the time `now`.
pub host_on_game_status : ℕ → Lobby → Snapshot → Option (List Effect)
host_on_game_status now l (dictionary _) = none
host_on_game_status now l other = none
host_on_game_status now l (string status) = some (
    if str_eq status "inProgress"
    then set_value (global_ref l ("endTime" ∷ [])) (int (game_end_time now)) ∷ segue l.selected
    else [])

-- The game status listener of the other players.
pub regular_on_game_status : Lobby → Snapshot → Option (List Effect)
regular_on_game_status l (dictionary _) = none
regular_on_game_status l other = none
regular_on_game_status l (string status) =
    some (if str_eq status "inProgress" then segue l.selected else [])

-- `viewWillAppear`, the same in both classes.
pub view_will_appear : Lobby → Lobby × List Effect
view_will_appear l = (
  record l {
    observers = l.observers ++ (teams_ref l, teams) ∷ (game_state_ref l, game_status) ∷ [];
  },
  set_value (party l ("Teams" ∷ l.player_name ∷ [])) (text "Attacker") ∷ [],
)

pub path_eq : DbPath → DbPath → Bool
path_eq [] [] = true
path_eq [] (_ ∷ _) = false
path_eq (_ ∷ _) [] = false
path_eq (a ∷ p) (b ∷ q) = if str_eq a b then path_eq p q else false

-- `removeAllObservers` at a reference: those at that reference, not those at its children.
pub remove_all_observers : DbPath → List (DbPath × Listener) → List (DbPath × Listener)
remove_all_observers p [] = []
remove_all_observers p (o ∷ os) =
    let rest = remove_all_observers p os in if path_eq o.0 p then rest else o ∷ rest

-- `viewDidDisappear` of the host, and of the other players, who also clear the root reference.
pub host_view_did_disappear : Lobby → Lobby
host_view_did_disappear l = record l { observers = remove_all_observers (teams_ref l) l.observers }

pub regular_view_did_disappear : Lobby → Lobby
regular_view_did_disappear l = record l {
  observers = remove_all_observers (teams_ref l) (remove_all_observers [] l.observers);
}

-- `startButton`
pub start_button : Lobby → List Effect
start_button l =
    set_value (global_ref l ("flagsCaptured" ∷ [])) (int 0)
    ∷ set_value (global_ref l ("numPlayersAlive" ∷ "numAttackersAlive" ∷ []))
        (int (length l.attackers))
    ∷ set_value (global_ref l ("numPlayersAlive" ∷ "numDefendersAlive" ∷ []))
        (int (length l.defenders))
    ∷ set_value (game_state_ref l) (text "inProgress")
    ∷ []

choose_team : Lobby → String → List Effect
choose_team l team =
    set_value (party l ("Teams" ∷ l.player_name ∷ [])) (text team)
    ∷ set_value (player_ref l ("Team" ∷ [])) (text team)
    ∷ []

-- `valueChanged`, which switches on the segment that is now selected.
pub value_changed : Lobby → List Effect
value_changed l = elim l.selected [
  | some zero ↦ choose_team l "Attacker"
  | some (suc zero) ↦ choose_team l "Defender"
  | some (suc (suc _)) ↦ print "[ERROR] Team Selection Error." ∷ []
  | none ↦ print "[ERROR] Team Selection Error." ∷ []
]

-- The table views that may ask for rows.
pub data Table : Type 0 where
  attackers_table defenders_table unknown_table : Table

-- `tableView(_:numberOfRowsInSection:)`
pub number_of_rows : Lobby → Table → Option ℕ
number_of_rows l attackers_table = some (length l.attackers)
number_of_rows l defenders_table = some (length l.defenders)
number_of_rows l unknown_table = none

-- The text of the cell of `tableView(_:cellForRowAt:)`.
pub cell_for_row : Lobby → Table → ℕ → Option String
cell_for_row l attackers_table i = get_elem? l.attackers i
cell_for_row l defenders_table i = get_elem? l.defenders i
cell_for_row l unknown_table i = none
