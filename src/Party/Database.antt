-- ===== src/Party/Database.antt =====
-- What the screens say to the database: paths, values, writes, and the snapshots handed to a
-- listener. The database itself is not part of the sources, so it is the parameter `Firebase`.
use demolition_app.Base.{
  ℕ, String, ◌≡◌, ◌≢◌, ◌⊎◌, Option, some, List, [], ◌∷◌, str_eq, eq_iff, inl, false, arith,
}
use demolition_app.Base.Int.{ℤ}

-- `ref.child(a).child(b)` from the root.
abbrev pub DbPath : Type 0
DbPath = List String

-- What `setValue` is called with. A coordinate is a whole number of microdegrees.
pub data Value : Type 0 where
  text : String → Value
  int : ℕ → Value
  degrees : ℤ → Value

-- A child of a snapshot as `as! String` sees it.
pub data Child : Type 0 where
  string : String → Child
  other : Child

-- `snapshot.value`, as the casts of the listeners see it.
pub data Snapshot : Type 0 where
  dictionary : List (String × Child) → Snapshot
  string : String → Snapshot
  other : Snapshot

-- What a handler does to the outside, in the order in which it does it.
pub data Effect : Type 0 where
  set_value : DbPath → Value → Effect
  remove_value : DbPath → Effect
  reload_tables : Effect
  perform_segue : String → Effect
  print : String → Effect

-- Neither path is the other or lies above it.
abbrev pub Apart : DbPath → DbPath → Type 0
Apart [] q = ⊥
Apart (a ∷ p) [] = ⊥
Apart (a ∷ p) (b ∷ q) = (a ≢ b) ⊎ Apart p q

pub differ : (a b : String) (p q : DbPath) → str_eq a b ≡ false → Apart (a ∷ p) (b ∷ q)
differ a b p q e = inl (λ h. ground (arith, eq_iff a b))

-- The documented behaviour of the database that the screens rely on: a write is read back at its
-- own path, and leaves alone a value that lies neither above nor below it.
pub record Firebase : Type 1 where
  pub Store : Type 0
  pub get : Store → DbPath → Option Value
  pub set : Store → DbPath → Value → Store
  pub remove : Store → DbPath → Store
  pub get-set_self : (s : Store) (p : DbPath) (v : Value) → get (set s p v) p ≡ some v
  pub get-set_apart :
      (s : Store) (p q : DbPath) (v : Value) → Apart p q → get (set s p v) q ≡ get s q

module _ (f : Firebase) where
  open f use {Store, set, remove}

  abbrev pub perform : Store → Effect → Store
  perform s (set_value p v) = set s p v
  perform s (remove_value p) = remove s p
  perform s reload_tables = s
  perform s (perform_segue _) = s
  perform s (print _) = s

  abbrev pub perform_all : Store → List Effect → Store
  perform_all s [] = s
  perform_all s (e ∷ es) = perform_all (perform s e) es
