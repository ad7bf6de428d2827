-- ===== src/Prompt/Logger/Levels.antt =====
-- Every logger has a level, its own or that of the nearest one above it.
use demolition_app.Base.{
  ℕ, ◌≡◌, refl, ap, ◌∙◌, String, Bool, true, false, Option, some, none, List, [], ◌∷◌, leb,
  if◌then◌else◌,
}
use demolition_app.Prompt.Logger.{
  Name, Logger, new_logger, same_name, find, root, add_root, ensure_root, add_missing, get_logger,
  level_of, or_else, effective_level, all_handlers, log,
}

-- The root, if there is one, has a level.
unfoldable pub IsRooted : List Logger → Type 0
IsRooted ls = (l : Logger) → find [] ls ≡ some l → (n : ℕ) × (l.level ≡ some n)

-- There is a root with a level.
HasRoot : List Logger → Type 0
HasRoot ls = (n : ℕ) × (level_of (find [] ls) ≡ some n)

add_root-HasRoot :
    (o : Option Logger) (ls : List Logger) → find [] ls ≡ o → IsRooted ls → HasRoot (add_root o ls)
unfolding add_root root HasRoot IsRooted find same_name
add_root-HasRoot none ls e r = (700, refl)
add_root-HasRoot (some l) ls e r = let (n, h) = r l e in (n, ap level_of e ∙ h)

ensure_root-HasRoot : (ls : List Logger) → IsRooted ls → HasRoot (ensure_root ls)
unfolding ensure_root
ensure_root-HasRoot ls r = add_root-HasRoot (find [] ls) ls refl r

add_missing-HasRoot :
    (o : Option Logger) (s : String) (parent : Name) (old with_parent : List Logger)
    → HasRoot old
    → HasRoot with_parent
    → HasRoot (add_missing o (s ∷ parent) old with_parent)
unfolding add_missing HasRoot find same_name new_logger
add_missing-HasRoot none s parent old with_parent h p = p
add_missing-HasRoot (some l) s parent old with_parent h p = h

get_logger-HasRoot : (n : Name) (ls : List Logger) → IsRooted ls → HasRoot (get_logger n ls)
unfolding get_logger
get_logger-HasRoot [] ls r = ensure_root-HasRoot ls r
get_logger-HasRoot (s ∷ parent) ls r =
    add_missing-HasRoot (find (s ∷ parent) ls) s parent (ensure_root ls) (get_logger parent ls)
      (ensure_root-HasRoot ls r) (get_logger-HasRoot parent ls r)

or_else-some : (o : Option ℕ) (n : ℕ) → (m : ℕ) × (or_else o (some n) ≡ some m)
or_else-some none n = (n, refl)
or_else-some (some a) n = (a, refl)

effective_level-some :
    (n : Name) (ls : List Logger) → HasRoot ls → (m : ℕ) × (effective_level n ls ≡ some m)
unfolding effective_level HasRoot
effective_level-some [] ls h = h
effective_level-some (s ∷ parent) ls h =
    let (m, e) = effective_level-some parent ls h in
    let (k, f) = or_else-some (level_of (find (s ∷ parent) ls)) m in
    (k, ap (or_else (level_of (find (s ∷ parent) ls))) e ∙ f)

-- Once any logger was asked for, where the root, if there was one, had a level, every logger has
-- a level, and a record goes to the handlers of the logger and of all above it when its value is not
-- below that level, and else to none.
log-get_logger :
    (value : ℕ) (asked n : Name) (ls : List Logger)
    → IsRooted ls
    → (m : ℕ) × (effective_level n (get_logger asked ls) ≡ some m)
      × (log value n (get_logger asked ls)
          ≡ some (if leb m value then all_handlers n (get_logger asked ls) else []))
unfolding log
log-get_logger value asked n ls r =
    let (m, e) = effective_level-some n (get_logger asked ls) (get_logger-HasRoot asked ls r) in
    (m, e, rw e (some_if (leb m value) (all_handlers n (get_logger asked ls))))
  where
    some_if :
        (b : Bool) (hs : List ℕ) → (if b then some hs else some []) ≡ some (if b then hs else [])
    some_if true hs = refl
    some_if false hs = refl
