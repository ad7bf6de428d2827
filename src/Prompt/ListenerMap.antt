-- ===== src/Prompt/ListenerMap.antt =====
-- The map `de` of the listeners of an object, by the type of event.
pub mod Found
pub mod Valid
pub mod Refines
mod Examples
use demolition_app.Base.{
  ℕ, zero, suc, ◌+◌, ◌-◌, ◌==◌, String, str_eq, Bool, true, false, not, ◌&&◌, ◌||◌, Option, some,
  none, List, [], ◌∷◌, ◌++◌, length, get_elem?, if◌then◌else◌,
}
use demolition_app.Base.Dict.{Dict, lookup, has, insert, erase}
use demolition_app.Prompt.Container.{erase_at}

-- What a listener is looked for by: the function, `capture`, and the object `wh` that it is called
-- on, if one was given.
pub record Query : Type 0 where
  pub callback : ℕ
  pub capture : Bool
  pub scope : Option ℕ

-- `be`: `key`, `type`, `listener` with `capture` and `wh`, and `Qg`. Its flag `nf` is set when it
-- is taken out of the map, where it never comes back, so it is no field: `holds` reads it.
pub record Listener : Type 0 where
  pub key : ℕ
  pub kind : String
  pub query : Query
  pub once : Bool

-- `La` and `Ig`
pub record ListenerMap : Type 0 where
  pub lists : Dict (List Listener)
  pub count : ℕ

pub new_map : ListenerMap
new_map = record { lists = []; count = 0 }

pub same_bool : Bool → Bool → Bool
same_bool true b = b
same_bool false b = not b

pub same_scope : Option ℕ → Option ℕ → Bool
same_scope none none = true
same_scope none (some b) = false
same_scope (some a) none = false
same_scope (some a) (some b) = a == b

pub same_query : Query → Query → Bool
unfolding same_bool same_scope
same_query p q =
    p.callback == q.callback && same_bool p.capture q.capture && same_scope p.scope q.scope

-- `ee`; none stands for -1.
pub find_index : Query → List Listener → Option ℕ
find_index q [] = none
find_index q (l ∷ ls) =
    let rest : Option ℕ = elim (find_index q ls) [ none ↦ none | some i ↦ some (suc i) ] in
    if same_query l.query q then some 0 else rest

-- `Qg=!1` for the listener at an index.
pub clear_once : ℕ → List Listener → List Listener
clear_once i [] = []
clear_once zero (l ∷ ls) = record l { once = false } ∷ ls
clear_once (suc i) (l ∷ ls) = l ∷ clear_once i ls

abbrev listed : Option (List Listener) → List Listener
listed none = []
listed (some ls) = ls

-- `La[g]`, an empty list when there is none.
unfoldable pub list_at : String → ListenerMap → List Listener
list_at t m = listed (lookup t m.lists)

-- The end of `add`, for what `ee` found; `key` is the next one.
pub add_to : ℕ → String → Query → Bool → Option ℕ → List Listener → List Listener
unfolding clear_once
add_to key t q once none ls = ls ++ record { key = key; kind = t; query = q; once = once } ∷ []
add_to key t q once (some i) ls = if once then ls else clear_once i ls

-- `add`
pub add : ℕ → String → Query → Bool → ListenerMap → ListenerMap
unfolding list_at find_index add_to
add key t q once m =
    let ls = list_at t m in
    record {
      lists = insert t (add_to key t q once (find_index q ls) ls) m.lists;
      count = if has t m.lists then m.count else suc m.count;
    }

-- The end of `remove` and of `fe`, with the list of the type that is left.
pub put_back : String → List Listener → ListenerMap → ListenerMap
put_back t [] m = record { lists = erase t m.lists; count = m.count - 1 }
put_back t (l ∷ ls) m = record m { lists = insert t (l ∷ ls) m.lists }

-- `remove`
pub remove : String → Query → ListenerMap → ListenerMap × Bool
unfolding list_at find_index put_back
remove t q m =
    let ls = list_at t m in
    if has t m.lists
    then (elim (find_index q ls) [
      | none ↦ (m, false)
      | some i ↦ (put_back t (erase_at i ls) m, true)
    ])
    else (m, false)

-- `Wa` in `eb`: where a listener itself stands.
unfoldable pub place_of : ℕ → List Listener → Option ℕ
place_of key [] = none
place_of key (l ∷ ls) =
    let rest : Option ℕ = elim (place_of key ls) [ none ↦ none | some i ↦ some (suc i) ] in
    if l.key == key then some 0 else rest

-- `fe`
pub remove_listener : Listener → ListenerMap → ListenerMap × Bool
unfolding list_at place_of put_back
remove_listener l m =
    let ls = list_at l.kind m in
    if has l.kind m.lists
    then (elim (place_of l.key ls) [
      | none ↦ (m, false)
      | some i ↦ (put_back l.kind (erase_at i ls) m, true)
    ])
    else (m, false)

-- Whether a listener is still in the map.
unfoldable pub holds : Listener → ListenerMap → Bool
unfolding list_at place_of
holds l m = elim (place_of l.key (list_at l.kind m)) [ none ↦ false | some i ↦ true ]

-- `oc`, of one type or of all; an empty text is no type.
pub remove_all : Option String → ListenerMap → ListenerMap
remove_all none m = record { lists = []; count = m.count - length m.lists }
remove_all (some t) m =
    if str_eq t ""
    then record { lists = []; count = m.count - length m.lists }
    else if has t m.lists
    then record { lists = erase t m.lists; count = m.count - 1 }
    else m

-- `Pf`
pub get_listener : String → Query → ListenerMap → Option Listener
unfolding list_at find_index
get_listener t q m = elim (find_index q (list_at t m)) [
  | none ↦ none
  | some i ↦ get_elem? (list_at t m) i
]

-- `hasListener`, of a type or any, capturing, not, or any.
pub fits : Option String → Option Bool → Listener → Bool
unfolding same_bool
fits t c l =
    let kind : Bool = elim t [ none ↦ true | some t ↦ str_eq l.kind t ] in
    let phase : Bool = elim c [ none ↦ true | some c ↦ same_bool l.query.capture c ] in
    kind && phase

pub any_fits : Option String → Option Bool → List Listener → Bool
unfolding fits
any_fits t c [] = false
any_fits t c (l ∷ ls) = if fits t c l then true else any_fits t c ls

pub has_listener : Option String → Option Bool → Dict (List Listener) → Bool
unfolding any_fits
has_listener t c [] = false
has_listener t c ((k, ls) ∷ d) = if any_fits t c ls then true else has_listener t c d
