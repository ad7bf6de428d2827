-- ===== src/Party/Flags.antt =====
-- `viewDidLoad` of the lobby screens: the flags, what the host writes of them, and the first
-- writes of a player. `for location in flagAnnotations.values` runs in an order that the language
-- does not fix, so that order is an argument.
pub mod Published
use Prim.Native.String.{◌++◌ as str_append}
use demolition_app.Base.Decimal.{decimal}
use demolition_app.Base.{ℕ, zero, suc, ◌-◌, String, List, [], ◌∷◌, ◌++◌, map, ltb, if◌then◌else◌}
use demolition_app.Base.Int.{ℤ, pos, negsuc}
use demolition_app.Party.Database.{DbPath, Value, text, int, degrees, Effect, set_value}
use demolition_app.Party.Lobby.{Lobby, party, global_ref, game_state_ref, player_ref}

-- The coordinates are in microdegrees.
pub record Annotation : Type 0 where
  pub latitude : ℤ
  pub longitude : ℤ
  pub title : String
  pub subtitle : String

abbrev annotation : ℕ → ℕ → String → String → Annotation
annotation north west title subtitle = record {
  latitude = pos north;
  longitude = negsuc (west - 1);
  title = title;
  subtitle = subtitle;
}

-- `flagAnnotations`
abbrev pub flag_annotations : List (String × Annotation)
flag_annotations =
    ("Flag1", annotation 42360743 71091081 "Flag 1" "Near bike racks")
    ∷ ("Flag2", annotation 42358243 71091955 "Flag 2" "Next to a poll")
    ∷ ("Flag3", annotation 42358694 71090601 "Flag 3" "Next to a poll")
    ∷ ("Flag4", annotation 42359738 71088962 "Flag 4" "Underneath the statue")
    ∷ ("Flag5", annotation 42361286 71087382 "Flag 5" "Under a bench")
    ∷ ("Flag6", annotation 42361664 71089983 "Flag 6" "Top of amphitheater")
    ∷ []

abbrev pub flag_values : List Annotation
flag_values = map (λ e. e.1) flag_annotations

abbrev pub flag_name : ℕ → String
unfolding decimal
flag_name count = str_append "Flag" (decimal count)

abbrev pub flag_ref : Lobby → String → DbPath → DbPath
flag_ref l name p = global_ref l ("Flags" ∷ name ∷ p)

-- `for location in flagAnnotations.values { … count += 1 }`
pub write_flags : Lobby → ℕ → List Annotation → List Effect
write_flags l count [] = []
write_flags l count (location ∷ rest) =
    set_value (flag_ref l (flag_name count) ("Status" ∷ [])) (text "Free")
    ∷ set_value (flag_ref l (flag_name count) ("Location" ∷ "Longitude" ∷ []))
        (degrees location.longitude)
    ∷ set_value (flag_ref l (flag_name count) ("Location" ∷ "Latitude" ∷ []))
        (degrees location.latitude)
    ∷ write_flags l (suc count) rest

first_location : Lobby → List Effect
first_location l =
    set_value (player_ref l ("Location" ∷ "Longitude" ∷ [])) (int 0)
    ∷ set_value (player_ref l ("Location" ∷ "Latitude" ∷ [])) (int 0)
    ∷ []

-- `viewDidLoad` of the host, for an order of the annotations, and of the other players.
pub host_view_did_load : Lobby → List Annotation → List Effect
unfolding first_location
host_view_did_load l order =
    set_value (game_state_ref l) (text "inLobby")
    ∷ set_value (party l ("PlayerStatus" ∷ l.player_name ∷ [])) (text "Alive")
    ∷ (write_flags l 1 order ++ first_location l)

pub regular_view_did_load : Lobby → List Effect
unfolding first_location
regular_view_did_load l =
    set_value (party l ("PlayerStatus" ∷ l.player_name ∷ [])) (text "Alive") ∷ first_location l
