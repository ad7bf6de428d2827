-- ===== src/Party/Examples.antt =====
-- The theorems of the app's screens at concrete screens and databases.
use demolition_app.Base.{
  String, ◌≡◌, ◌↔◌, refl, some, none, List, [], ◌∷◌, true, false, replicate, Occurs,
}
use demolition_app.Base.Int.{pos, negsuc}
use demolition_app.Party.Database.{
  text, Child, dictionary, string, other, reload_tables, perform_all,
}
use demolition_app.Party.Lobby.{Lobby, game_status, on_teams, team_at, game_state_ref}
use demolition_app.Party.Lobby.Teams.{on_teams_iff, on_teams-trap}
use demolition_app.Party.Lobby.Observers.{host_visits, regular_visits, visits-observers}
use demolition_app.Party.Lobby.Fixture.{memory, blank, lobby, snapshot}
use demolition_app.Party.Flags.{Annotation, flag_name, flag_values, host_view_did_load}
use demolition_app.Party.Flags.Published.{FlagIs, host_view_did_load-publishes}
use demolition_app.Party.GameOver.{GameOver}

on_teams_iff_example :
    (l' : Lobby) × (on_teams lobby (dictionary snapshot) ≡ some (l', reload_tables ∷ []))
    × ((name : String) → Occurs name l'.attackers ↔ (team_at name snapshot ≡ some "Attacker"))
    × ((name : String) → Occurs name l'.defenders ↔ (team_at name snapshot ≡ some "Defender"))
on_teams_iff_example =
    on_teams_iff lobby snapshot ((refl, (refl, tt)), ((refl, tt), (tt, tt))) (tt, (tt, (tt, tt)))

abbrev broken : List (String × Child)
broken = ("Bob", string "Defender") ∷ ("Eve", other) ∷ []

on_teams-trap_example :
    (on_teams lobby (dictionary broken) ≡ none)
    × ((s : String) → on_teams lobby (string s) ≡ none)
    × (on_teams lobby other ≡ none)
on_teams-trap_example = on_teams-trap lobby broken ((refl, tt), (tt, tt)) (λ h. h.1.0)

visits-observers_example :
    (host_visits 2 lobby
      ≡ record lobby { observers = replicate 2 (game_state_ref lobby, game_status) })
    × (regular_visits 2 lobby
        ≡ record lobby { observers = replicate 2 (game_state_ref lobby, game_status) })
visits-observers_example = visits-observers 2 lobby refl

abbrev third : Annotation
third = record {
  latitude = pos 42358694;
  longitude = negsuc 71090600;
  title = "Flag 3";
  subtitle = "Next to a poll";
}

host_view_did_load-publishes_example :
    let s' = perform_all memory blank (host_view_did_load lobby flag_values) in
    (s' (game_state_ref lobby) ≡ some (text "inLobby")) × FlagIs memory s' lobby (flag_name 3) third
host_view_did_load-publishes_example =
    host_view_did_load-publishes memory blank lobby flag_values 2 third refl refl

abbrev game : GameOver
game = record {
  party_id = "42";
  did_time_expire = true;
  did_capture_most_flags = false;
  are_all_attackers_dead = false;
  are_all_defenders_dead = false;
  attackers = "Ann" ∷ [];
  defenders = "Bob" ∷ "Cid" ∷ [];
  winner_label = none;
  winners_list = some "";
}

abbrev unlabelled : GameOver
unlabelled = record game { winners_list = none }
