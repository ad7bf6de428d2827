-- ===== src/Party/GameOver/Verdict.antt =====
-- Who is announced, with which list, and when the screen traps.
use Prim.Native.String.{◌++◌ as str_append}
use text.Mathlib.TextLemmas.{append-nil as str_append-nil, append_assoc as str_append_assoc}
use demolition_app.Base.{
  String, ◌≡◌, ◌≢◌, ◌∙◌, some, none, List, [], ◌∷◌, Bool, true, ◌&&◌, ◌||◌, not, eq_iff, Occurs,
  ◌↔◌, if◌then◌else◌, if◌then◌else◌, arith,
}
use demolition_app.Party.Database.{remove_value}
use demolition_app.Party.GameOver.{
  GameOver, list_winners, view_did_load, has_child, view_did_disappear,
}

-- One line for each name.
pub lines : List String → String
lines [] = ""
lines (name ∷ names) = str_append name (str_append "\n" (lines names))

list_winners-lines :
    (winners : List String) (label : String)
    → list_winners winners (some label) ≡ some (some (str_append label (lines winners)))
unfolding list_winners lines
list_winners-lines [] label = rw str_append-nil
list_winners-lines (w ∷ ws) label =
    list_winners-lines ws (str_append (str_append label w) "\n") ∙ simp str_append_assoc

-- With a text in the list's label the screen never traps. The attackers win when they captured
-- most flags or no defender is alive, whatever else happened; otherwise the defenders win when the
-- time is over or no attacker is alive; otherwise both labels stay as they were. The winning
-- team's names are added to the list, one line each, in the order of the list.
view_did_load-verdict :
    (g : GameOver) (label : String)
    → g.winners_list ≡ some label
    → (attackers_win defenders_win : Bool)
    → attackers_win ≡ (g.did_capture_most_flags || g.are_all_defenders_dead)
    → defenders_win ≡ (not attackers_win && (g.did_time_expire || g.are_all_attackers_dead))
    → view_did_load g
      ≡ some (
          if attackers_win
          then record g {
            winner_label = some "ATTACKERS WIN!";
            winners_list = some (str_append label (lines g.attackers));
          }
          else if defenders_win
          then record g {
            winner_label = some "DEFENDERS WIN!";
            winners_list = some (str_append label (lines g.defenders));
          }
          else g)
unfolding view_did_load
view_did_load-verdict g label l a d p q =
    ground (arith, list_winners-lines g.attackers label, list_winners-lines g.defenders label)

-- Without a text in the list's label the screen traps exactly when the team that won has a name.
view_did_load-trap :
    (g : GameOver) (winners : List String)
    → g.winners_list ≡ none
    → winners ≡ (
        if g.did_capture_most_flags || g.are_all_defenders_dead
        then g.attackers
        else if g.did_time_expire || g.are_all_attackers_dead
        then g.defenders
        else [])
    → (view_did_load g ≡ none) ↔ (winners ≢ [])
unfolding view_did_load list_winners
view_did_load-trap g winners l w = ground arith

has_child_iff : (ps : List String) (name : String) → (has_child ps name ≡ true) ↔ Occurs name ps
unfolding has_child
has_child_iff [] name = ground arith
has_child_iff (p ∷ ps) name = ground (arith, eq_iff p name, has_child_iff ps name)

-- Leaving the screen removes the folder of the party, and nothing else, exactly when the database
-- holds that party, and otherwise does nothing, so a second player who leaves does no harm.
view_did_disappear-once :
    (g : GameOver) (parties : List String)
    → ((view_did_disappear g parties ≡ remove_value ("Parties" ∷ g.party_id ∷ []) ∷ [])
        ↔ Occurs g.party_id parties)
      × ((view_did_disappear g parties ≡ []) ↔ (¬ Occurs g.party_id parties))
unfolding view_did_disappear
view_did_disappear-once g parties = ground (arith, has_child_iff parties g.party_id)
