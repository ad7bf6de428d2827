-- ===== src/Party/Lobby/Fixture.antt =====
-- A database in memory, which shows that the documented behaviour can be met, and a lobby to try.
use demolition_app.Base.{
  String, ◌≡◌, refl, inl, inr, true, false, Option, some, none, List, [], ◌∷◌, eq_iff,
  if◌then◌else◌, arith,
}
use demolition_app.Party.Database.{DbPath, Value, Apart, Firebase, Child, string}
use demolition_app.Party.Lobby.{Lobby, path_eq}

path_eq_refl : (p : DbPath) → path_eq p p ≡ true
unfolding path_eq
path_eq_refl [] = refl
path_eq_refl (a ∷ p) = rw ((eq_iff a a).1 refl) (path_eq_refl p)

path_eq-Apart : (p q : DbPath) → Apart p q → path_eq p q ≡ false
unfolding path_eq
path_eq-Apart [] q h = absurd h
path_eq-Apart (a ∷ p) [] h = absurd h
path_eq-Apart (a ∷ p) (b ∷ q) (inl ne) = ground (arith, eq_iff a b)
path_eq-Apart (a ∷ p) (b ∷ q) (inr h) = ground (arith, path_eq-Apart p q h)

abbrev pub write : (DbPath → Option Value) → DbPath → Option Value → DbPath → Option Value
write s p v q = if path_eq p q then v else s q

pub write_self :
    (s : DbPath → Option Value) (p : DbPath) (v : Value) → write s p (some v) p ≡ some v
write_self s p v = rw (path_eq_refl p)

pub write-Apart :
    (s : DbPath → Option Value) (p q : DbPath) (v : Value) → Apart p q → write s p (some v) q ≡ s q
write-Apart s p q v h = rw (path_eq-Apart p q h)

abbrev pub memory : Firebase
memory = record {
  Store = DbPath → Option Value;
  get = λ s p. s p;
  set = λ s p v. write s p (some v);
  remove = λ s p. write s p none;
  get-set_self = write_self;
  get-set_apart = write-Apart;
}

abbrev pub blank : DbPath → Option Value
blank p = none

abbrev pub lobby : Lobby
lobby = record {
  player_name = "Ann";
  party_id = "42";
  custom_hash = "h1";
  attackers = "Ann" ∷ "Cid" ∷ [];
  defenders = "Bob" ∷ [];
  selected = some 1;
  observers = [];
}

abbrev pub snapshot : List (String × Child)
snapshot = ("Bob", string "Defender") ∷ ("Ann", string "Attacker") ∷ ("Dee", string "Judge") ∷ []
