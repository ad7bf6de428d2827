-- ===== src/Party/Lobby/Observers.antt =====
-- The life of the listeners over appearances of a lobby screen.
use demolition_app.Base.{
  ℕ, zero, suc, String, ◌≡◌, refl, ◌∙◌, ap, [], ◌∷◌, ◌++◌, true, false, str_eq, eq_iff, replicate,
}
use demolition_app.Party.Database.{DbPath}
use demolition_app.Party.Lobby.{
  Listener, teams, game_status, Lobby, teams_ref, game_state_ref, path_eq, remove_all_observers,
  view_will_appear, host_view_did_disappear, regular_view_did_disappear,
}

-- The screen appears and disappears `n` times.
pub host_visits : ℕ → Lobby → Lobby
host_visits zero l = l
host_visits (suc n) l = host_view_did_disappear (view_will_appear (host_visits n l)).0

pub regular_visits : ℕ → Lobby → Lobby
regular_visits zero l = l
regular_visits (suc n) l = regular_view_did_disappear (view_will_appear (regular_visits n l)).0

eq_refl : (s : String) → str_eq s s ≡ true
eq_refl s = (eq_iff s s).1 refl

path_eq-teams_ref : (l : Lobby) → path_eq (teams_ref l) (teams_ref l) ≡ true
unfolding path_eq
path_eq-teams_ref l = rw (eq_refl l.party_id)

path_eq-game_state_ref : (l : Lobby) → path_eq (game_state_ref l) (teams_ref l) ≡ false
unfolding path_eq
path_eq-game_state_ref l = rw (eq_refl l.party_id)

abbrev forgotten : Lobby → DbPath × Listener
forgotten l = (game_state_ref l, game_status)

-- Clearing the teams' reference takes the teams' listener away, and the game status listener stays.
clear_teams :
    (l : Lobby) (n : ℕ)
    → remove_all_observers
        (teams_ref l)
        (replicate n (forgotten l) ++ (teams_ref l, teams) ∷ forgotten l ∷ [])
      ≡ replicate (suc n) (forgotten l)
unfolding remove_all_observers
clear_teams l zero = rw (path_eq-teams_ref l, path_eq-game_state_ref l)
clear_teams l (suc n) = rw (path_eq-game_state_ref l) (ap (forgotten l ∷◌) (clear_teams l n))

-- Clearing the root reference takes no listener away.
clear_root :
    (l : Lobby) (n : ℕ)
    → remove_all_observers [] (replicate n (forgotten l) ++ (teams_ref l, teams) ∷ forgotten l ∷ [])
      ≡ replicate n (forgotten l) ++ (teams_ref l, teams) ∷ forgotten l ∷ []
unfolding remove_all_observers path_eq
clear_root l zero = refl
clear_root l (suc n) = ap (forgotten l ∷◌) (clear_root l n)

abbrev leak : Lobby → ℕ → Lobby
leak l n = record l { observers = replicate n (forgotten l) }

-- A lobby screen that has no listener and then appears and disappears n times is left with n game
-- status listeners on the party's game state and with no teams listener, both at the host and at
-- the other players; nothing else of the screen has changed.
pub visits-observers :
    (n : ℕ) (l : Lobby)
    → l.observers ≡ []
    → (host_visits n l ≡ record l { observers = replicate n (game_state_ref l, game_status) })
      × (regular_visits n l ≡ record l { observers = replicate n (game_state_ref l, game_status) })
unfolding host_visits regular_visits view_will_appear host_view_did_disappear
    regular_view_did_disappear
visits-observers zero l e =
    (ap (λ os. record l { observers = os }) e, ap (λ os. record l { observers = os }) e)
visits-observers (suc n) l e =
    let (host, regular) = visits-observers n l e in
    (
      ap (λ k. host_view_did_disappear (view_will_appear k).0) host
          ∙ ap (λ os. record l { observers = os }) (clear_teams l n),
      ap (λ k. regular_view_did_disappear (view_will_appear k).0) regular
          ∙ ap (λ os. record l { observers = remove_all_observers (teams_ref l) os })
              (clear_root l n)
          ∙ ap (λ os. record l { observers = os }) (clear_teams l n),
    )
