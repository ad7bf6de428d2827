-- ===== src/Prompt/Logger.antt =====
-- The loggers `Nc`: a tree by their names, where a logger without a level takes that of its parent.
pub mod Levels
mod Examples
use demolition_app.Base.{
  ℕ, String, str_eq, Bool, true, false, ◌&&◌, Option, some, none, List, [], ◌∷◌, ◌++◌, leb,
  if◌then◌else◌, ◌>>=◌,
}

-- The parts of a name between its dots, the last one first; the root has none.
abbrev pub Name : Type 0
Name = List String

-- `bf`, the value of `hg`, and `jn`.
pub record Logger : Type 0 where
  pub name : Name
  pub level : Option ℕ
  pub handlers : List ℕ

-- `new Nc`
pub new_logger : Name → Logger
new_logger name = record { name = name; level = none; handlers = [] }

pub same_name : Name → Name → Bool
same_name [] [] = true
same_name [] (t ∷ ts) = false
same_name (s ∷ ss) [] = false
same_name (s ∷ ss) (t ∷ ts) = str_eq s t && same_name ss ts

-- `Xc[a]`, of the loggers that there are.
pub find : Name → List Logger → Option Logger
unfolding same_name
find n [] = none
find n (l ∷ ls) = if same_name l.name n then some l else find n ls

-- The root `Yc`, which gets the level `Sc`.
pub root : Logger
root = record { name = []; level = some 700; handlers = [] }

pub add_root : Option Logger → List Logger → List Logger
unfolding root
add_root none ls = root ∷ ls
add_root (some l) ls = ls

pub ensure_root : List Logger → List Logger
unfolding find add_root
ensure_root ls = add_root (find [] ls) ls

-- `Zc` on the loggers that there are, for a name that has one and for one that has none.
pub add_missing : Option Logger → Name → List Logger → List Logger → List Logger
unfolding new_logger
add_missing none n old with_parent = new_logger n ∷ with_parent
add_missing (some l) n old with_parent = old

-- `Zc`
pub get_logger : Name → List Logger → List Logger
unfolding ensure_root find add_missing
get_logger [] ls = ensure_root ls
get_logger (s ∷ parent) ls =
    add_missing (find (s ∷ parent) ls) (s ∷ parent) (ensure_root ls) (get_logger parent ls)

abbrev pub level_of : Option Logger → Option ℕ
level_of none = none
level_of (some l) = l.level

abbrev pub or_else : Option ℕ → Option ℕ → Option ℕ
or_else none b = b
or_else (some a) b = some a

-- `Wc`
pub effective_level : Name → List Logger → Option ℕ
unfolding find
effective_level [] ls = level_of (find [] ls)
effective_level (s ∷ parent) ls =
    or_else (level_of (find (s ∷ parent) ls)) (effective_level parent ls)

abbrev pub handlers_of : Option Logger → List ℕ
handlers_of none = []
handlers_of (some l) = l.handlers

-- The handlers of a logger and of all above it, in the order in which they are called.
pub all_handlers : Name → List Logger → List ℕ
unfolding find
all_handlers [] ls = handlers_of (find [] ls)
all_handlers (s ∷ parent) ls = handlers_of (find (s ∷ parent) ls) ++ all_handlers parent ls

-- `log`: the handlers that a record of a value goes to; none when the level is null.
pub log : ℕ → Name → List Logger → Option (List ℕ)
unfolding effective_level all_handlers
log value n ls = do
  least ← effective_level n ls
  if leb least value then some (all_handlers n ls) else some []
