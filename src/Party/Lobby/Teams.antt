-- ===== src/Party/Lobby/Teams.antt =====
-- The teams listener (`on_teams`): which names it puts in which table, and when it traps.
use demolition_app.Base.{
  String, ◌≡◌, ◌≢◌, inl, inr, refl, Option, some, none, List, [], ◌∷◌, ◌++◌, true, false, str_eq,
  if◌then◌else◌, All, Occurs, ◌↔◌, ◌∙◌, ap, Bool-cases, append_assoc, append-nil, eq_iff, arith,
}
use demolition_app.Party.Database.{Child, dictionary, string, other, reload_tables}
use demolition_app.Party.Lobby.{Lobby, team_at, keys, join_team, teams_loop, on_teams}

-- The keys of a dictionary differ from each other.
abbrev pub DistinctKeys : List (String × Child) → Type 0
DistinctKeys [] = Unit
DistinctKeys ((key, _) ∷ rest) = All (λ e. str_eq key e.0 ≡ false) rest × DistinctKeys rest

abbrev pub IsString : Child → Type 0
IsString (string _) = Unit
IsString other = ⊥

abbrev pub AllStrings : List (String × Child) → Type 0
AllStrings = All (λ e. IsString e.1)

-- The names that the dictionary maps to `team`, in its order.
pub names_of : String → List (String × Child) → List String
names_of team [] = []
names_of team ((name, child) ∷ rest) =
    let others = names_of team rest in
    elim child [ string t ↦ if str_eq t team then name ∷ others else others | other ↦ others ]

abbrev team_of : Child → Option String
team_of (string team) = some team
team_of other = none

abbrev Agrees : List (String × Child) → List (String × Child) → Type 0
Agrees value = All (λ e. team_at e.0 value ≡ team_of e.1)

attacker≢defender : ◌≢◌ {A = String} "Attacker" "Defender"
attacker≢defender = ground (arith, eq_iff "Attacker" "Defender")

eq_refl : (s : String) → str_eq s s ≡ true
eq_refl s = (eq_iff s s).1 refl

Agrees-cons :
    (key : String) (child : Child) (value es : List (String × Child))
    → All (λ e. str_eq key e.0 ≡ false) es
    → Agrees value es
    → Agrees ((key, child) ∷ value) es
unfolding team_at
Agrees-cons key child value [] h a = tt
Agrees-cons key child value ((k, c) ∷ es) h a = (rw h.0 a.0, Agrees-cons key child value es h.1 a.1)

Agrees-self : (value : List (String × Child)) → DistinctKeys value → Agrees value value
unfolding team_at
Agrees-self [] h = tt
Agrees-self ((k, string t) ∷ es) h =
    (rw (eq_refl k), Agrees-cons k (string t) es es h.0 (Agrees-self es h.1))
Agrees-self ((k, other) ∷ es) h =
    (rw (eq_refl k), Agrees-cons k other es es h.0 (Agrees-self es h.1))

not-defender : (team : String) → str_eq team "Attacker" ≡ true → str_eq team "Defender" ≡ false
not-defender team h =
    ground (arith, eq_iff team "Attacker", eq_iff team "Defender", attacker≢defender)

abbrev empty_tables : Lobby → Lobby
empty_tables l = record l { attackers = []; defenders = [] }

abbrev with_names : List (String × Child) → Lobby → Lobby
with_names es l = record l {
  attackers = l.attackers ++ names_of "Attacker" es;
  defenders = l.defenders ++ names_of "Defender" es;
}

-- What the body of the loop adds for one name.
join_team-names :
    (name team : String) (es : List (String × Child)) (l : Lobby)
    → with_names es (join_team name team l) ≡ with_names ((name, string team) ∷ es) l
unfolding join_team names_of
join_team-names name team es l = elim (Bool-cases (str_eq team "Attacker")) [
  | inl hit ↦ rw (hit, not-defender team hit, append_assoc)
  | inr miss ↦ elim (Bool-cases (str_eq team "Defender")) [
    | inl hit ↦ rw (miss, hit, append_assoc)
    | inr neither ↦ rw (miss, neither)
  ]
]

teams_loop-names :
    (value es : List (String × Child)) (l : Lobby)
    → Agrees value es
    → AllStrings es
    → teams_loop value (keys es) l ≡ some (with_names es l)
unfolding teams_loop names_of
teams_loop-names value [] l a h = simp append-nil
teams_loop-names value ((name, other) ∷ es) l a h = absurd h.0
teams_loop-names value ((name, string team) ∷ es) l a h =
    rw (a.0, teams_loop)
      (teams_loop-names value es (join_team name team l) a.1 h.1
        ∙ ap {B = Option Lobby} some (join_team-names name team es l))

-- For a snapshot with distinct keys whose values are all strings the listener never traps: the
-- attackers become exactly the names of team "Attacker", the defenders those of team "Defender",
-- both in the order of the snapshot, a name of any other team stands in neither, nothing else of
-- the screen changes, and both tables are reloaded.
pub on_teams-names :
    (l : Lobby) (value : List (String × Child))
    → DistinctKeys value
    → AllStrings value
    → on_teams l (dictionary value)
      ≡ some (
        record l { attackers = names_of "Attacker" value; defenders = names_of "Defender" value },
        reload_tables ∷ [],
      )
unfolding on_teams
on_teams-names l value d h =
    rw (teams_loop-names value value (empty_tables l) (Agrees-self value d) h, on_teams)

teams_loop-trap :
    (value es : List (String × Child)) (l : Lobby)
    → Agrees value es
    → ¬ AllStrings es
    → teams_loop value (keys es) l ≡ none
unfolding teams_loop
teams_loop-trap value [] l a h = absurd (h tt)
teams_loop-trap value ((name, other) ∷ es) l a h = rw (a.0, teams_loop)
teams_loop-trap value ((name, string team) ∷ es) l a h =
    rw (a.0, teams_loop) (teams_loop-trap value es (join_team name team l) a.1 (λ k. h (tt, k)))

-- With distinct keys the listener traps when the value of some name is not a string, and it traps
-- on every snapshot that is not a dictionary.
pub on_teams-trap :
    (l : Lobby) (value : List (String × Child))
    → DistinctKeys value
    → ¬ AllStrings value
    → (on_teams l (dictionary value) ≡ none)
      × ((s : String) → on_teams l (string s) ≡ none)
      × (on_teams l other ≡ none)
unfolding on_teams
on_teams-trap l value d bad = (
  rw (teams_loop-trap value value (empty_tables l) (Agrees-self value d) bad, on_teams),
  λ s. refl,
  refl,
)

team_at_fresh :
    (key name : String) (rest : List (String × Child))
    → All (λ e. str_eq key e.0 ≡ false) rest
    → str_eq key name ≡ true
    → team_at name rest ≡ none
unfolding team_at
team_at_fresh key name [] h e = refl
team_at_fresh key name ((k, c) ∷ rest) h e =
    ground (arith, eq_iff key name, eq_iff key k, eq_iff k name, team_at_fresh key name rest)

-- A name is listed for a team exactly when the dictionary maps it to that team.
names_of_iff :
    (value : List (String × Child)) (name team : String)
    → DistinctKeys value
    → Occurs name (names_of team value) ↔ (team_at name value ≡ some team)
unfolding names_of team_at
names_of_iff [] name team d = ground arith
names_of_iff ((key, string t) ∷ rest) name team d = ground (
  arith,
  eq_iff key name,
  eq_iff t team,
  names_of_iff rest name team d.1,
  team_at_fresh key name rest d.0,
)
names_of_iff ((key, other) ∷ rest) name team d =
    ground (arith, names_of_iff rest name team d.1, team_at_fresh key name rest d.0)

-- For a snapshot with distinct keys whose values are all strings the listener returns, and a name
-- then stands in the attackers' table exactly when the snapshot maps it to "Attacker", and in the
-- defenders' table exactly when the snapshot maps it to "Defender".
pub on_teams_iff :
    (l : Lobby) (value : List (String × Child))
    → DistinctKeys value
    → AllStrings value
    → (l' : Lobby) × (on_teams l (dictionary value) ≡ some (l', reload_tables ∷ []))
      × ((name : String) → Occurs name l'.attackers ↔ (team_at name value ≡ some "Attacker"))
      × ((name : String) → Occurs name l'.defenders ↔ (team_at name value ≡ some "Defender"))
on_teams_iff l value d h = (
  record l { attackers = names_of "Attacker" value; defenders = names_of "Defender" value },
  on_teams-names l value d h,
  λ name. names_of_iff value name "Attacker" d,
  λ name. names_of_iff value name "Defender" d,
)
