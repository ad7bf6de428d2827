-- ===== src/Party/Lobby/Start.antt =====
-- What the buttons and the segment publish in the database, and what the listeners then do.
use demolition_app.Base.{
  ℕ, ◌+◌, ◌*◌, ◌≤◌, ◌<◌, String, ◌≡◌, ◌⊎◌, inl, inr, refl, ◌∙◌, some, [], ◌∷◌, str_eq, false,
  if◌then◌else◌, length, arith,
}
use demolition_app.Party.Database.{
  DbPath, text, int, string, Value, differ, set_value, perform_segue, Apart, Firebase, perform_all,
}
use demolition_app.Party.Lobby.{
  Lobby, party, global_ref, game_state_ref, player_ref, start_button, choose_team, value_changed,
  segue, game_end_time, host_on_game_status, regular_on_game_status,
}

-- Two children of the party's "Global" folder whose names differ.
global-Apart :
    (l : Lobby) (a b : String) (p q : DbPath)
    → str_eq a b ≡ false
    → Apart (global_ref l (a ∷ p)) (global_ref l (b ∷ q))
global-Apart l a b p q e = inr (inr (inr (differ a b p q e)))

module _ (f : Firebase) (s : f.Store) where
  open f use {get, set, get-set_self, get-set_apart}

  -- After the host's start button the database holds the number of attackers and of defenders that
  -- the host's tables show, no captured flag, and the game state that starts every lobby's game.
  pub start_button-publishes :
      (l : Lobby)
      → let s' = perform_all f s (start_button l) in
        (get s' (global_ref l ("flagsCaptured" ∷ [])) ≡ some (int 0))
        × (get s' (global_ref l ("numPlayersAlive" ∷ "numAttackersAlive" ∷ []))
            ≡ some (int (length l.attackers)))
        × (get s' (global_ref l ("numPlayersAlive" ∷ "numDefendersAlive" ∷ []))
            ≡ some (int (length l.defenders)))
        × (get s' (game_state_ref l) ≡ some (text "inProgress"))
  unfolding start_button
  start_button-publishes l = (
    apart _ "gameState" "flagsCaptured" refl
        ∙ apart _ "numPlayersAlive" "flagsCaptured" refl
        ∙ apart _ "numPlayersAlive" "flagsCaptured" refl
        ∙ get-set_self _ _ _,
    apart _ "gameState" "numPlayersAlive" refl
        ∙ get-set_apart _ _ _ _
            (inr (inr (inr (inr (differ "numDefendersAlive" "numAttackersAlive" [] [] refl)))))
        ∙ get-set_self _ _ _,
    apart _ "gameState" "numPlayersAlive" refl ∙ get-set_self _ _ _,
    get-set_self _ _ _,
  )
    where
      apart :
          (t : f.Store) (a b : String) {p q : DbPath} {v : Value}
          → str_eq a b ≡ false
          → get (set t (global_ref l (a ∷ p)) v) (global_ref l (b ∷ q))
            ≡ get t (global_ref l (b ∷ q))
      apart t a b e = get-set_apart t _ _ _ (global-Apart l a b _ _ e)

  choose_team-publishes :
      (l : Lobby) (team : String)
      → let s' = perform_all f s (choose_team l team) in
        (get s' (party l ("Teams" ∷ l.player_name ∷ [])) ≡ some (text team))
        × (get s' (player_ref l ("Team" ∷ [])) ≡ some (text team))
  unfolding choose_team
  choose_team-publishes l team = (
    get-set_apart _ _ _ _ (
          inr (
            inr (differ "Players" "Teams" (l.custom_hash ∷ "Team" ∷ []) (l.player_name ∷ []) refl)))
        ∙ get-set_self _ _ _,
    get-set_self _ _ _,
  )

  -- Choosing the first segment writes "Attacker" and choosing the second one writes "Defender",
  -- both under the player's name among the teams and under the player's hash among the players.
  pub value_changed-publishes :
      (l : Lobby) (i : ℕ) (team : String)
      → l.selected ≡ some i
      → ((i ≡ 0) × (team ≡ "Attacker")) ⊎ ((i ≡ 1) × (team ≡ "Defender"))
      → let s' = perform_all f s (value_changed l) in
        (get s' (party l ("Teams" ∷ l.player_name ∷ [])) ≡ some (text team))
        × (get s' (player_ref l ("Team" ∷ [])) ≡ some (text team))
  unfolding value_changed
  value_changed-publishes l i team e (inl (n, t)) =
      rw (e, n, t, value_changed) (choose_team-publishes l "Attacker")
  value_changed-publishes l i team e (inr (n, t)) =
      rw (e, n, t, value_changed) (choose_team-publishes l "Defender")

-- The listeners of the host and of the others start the same segue, and only on "inProgress": the
-- attackers' one at the first segment and the defenders' one at the second. The host also writes
-- the end of the game, ten minutes and less than a second of rounding after the time it sees.
on_game_status-starts :
    (now : ℕ) (l : Lobby) (i : ℕ) (name : String)
    → l.selected ≡ some i
    → ((i ≡ 0) × (name ≡ "attackerSegue")) ⊎ ((i ≡ 1) × (name ≡ "defenderSegue"))
    → (status : String)
    → let started = str_eq status "inProgress" in
      (regular_on_game_status l (string status)
        ≡ some (if started then perform_segue name ∷ [] else []))
      × (end_time : ℕ) × (host_on_game_status now l (string status)
          ≡ some (
              if started
              then set_value (global_ref l ("endTime" ∷ [])) (int end_time)
                ∷ perform_segue name
                ∷ []
              else []))
      × (end_time * 1000 ≤ now + 600000)
      × (now + 600000 < end_time * 1000 + 1000)
unfolding regular_on_game_status host_on_game_status segue
on_game_status-starts now l i name e (inl (n, t)) status =
    (rw (e, n, t, segue), game_end_time now, rw (e, n, t, segue), omega arith, omega arith)
on_game_status-starts now l i name e (inr (n, t)) status =
    (rw (e, n, t, segue), game_end_time now, rw (e, n, t, segue), omega arith, omega arith)
