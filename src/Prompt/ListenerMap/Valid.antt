-- ===== src/Prompt/ListenerMap/Valid.antt =====
-- What stays true of the map: it has no empty list, and no two listeners for the same.
use demolition_app.Base.{
  ℕ, suc, ◌-◌, ◌≤◌, ◌≡◌, inl, inr, refl, String, str_eq, Bool, true, false, Option, some, none,
  List, [], ◌∷◌, length, if◌then◌else◌, if_elim, if_cases, Option-cases, arith,
}
use demolition_app.Base.Dict.{
  lookup, has, insert, erase, dict_keys, DistinctTexts, lookup-insert, lookup-erase, lookup-has,
  length-insert, length-erase, insert-distinct, erase-distinct,
}
use demolition_app.Prompt.ListenerMap.Found.{times, times-add_to, add_to-filled, times-erase_at}
use demolition_app.Prompt.Container.{erase_at}
use demolition_app.Prompt.ListenerMap.{
  new_map, Query, Listener, ListenerMap, find_index, listed, list_at, add, put_back, remove,
  remove_all,
}

pub data Call : Type 0 where
  adds : ℕ → String → Query → Bool → Call
  removes : String → Query → Call
  removes_all : Option String → Call

unfoldable pub step : Call → ListenerMap → ListenerMap
step (adds key t q once) m = add key t q once m
step (removes t q) m = (remove t q m).0
step (removes_all t) m = remove_all t m

-- The types differ, the count is that of the types, and each type has listeners, of which no two
-- are for the same query.
pub record IsValid (m : ListenerMap) : Type 0 where
  pub distinct : DistinctTexts (dict_keys m.lists)
  pub counted : m.count ≡ length m.lists
  pub filled : (t : String) (ls : List Listener) → lookup t m.lists ≡ some ls → 1 ≤ length ls
  pub unique : (t : String) (q : Query) → times q (list_at t m) ≤ 1

listed_if :
    (b : Bool) (x y : Option (List Listener))
    → listed (if b then x else y) ≡ (if b then listed x else listed y)
listed_if true x y = refl
listed_if false x y = refl

pub list_at-insert :
    (t t' : String) (ls : List Listener) (n : ℕ) (m : ListenerMap)
    → list_at t' (record { lists = insert t ls m.lists; count = n })
      ≡ (if str_eq t t' then ls else list_at t' m)
unfolding list_at
list_at-insert t t' ls n m = rw (lookup-insert t t' ls m.lists) (listed_if (str_eq t t') _ _)

pub list_at-erase :
    (t t' : String) (n : ℕ) (m : ListenerMap)
    → list_at t' (record { lists = erase t m.lists; count = n })
      ≡ (if str_eq t t' then [] else list_at t' m)
unfolding list_at
list_at-erase t t' n m = rw (lookup-erase t t' m.lists) (listed_if (str_eq t t') _ _)

pub list_at-put_back :
    (t t' : String) (ls : List Listener) (m : ListenerMap)
    → list_at t' (put_back t ls m) ≡ (if str_eq t t' then ls else list_at t' m)
unfolding put_back
list_at-put_back t t' [] m = list_at-erase t t' (m.count - 1) m
list_at-put_back t t' (l ∷ ls) m = list_at-insert t t' (l ∷ ls) m.count m

pub list_at-absent : (t : String) (m : ListenerMap) → has t m.lists ≡ false → list_at t m ≡ []
unfolding list_at
list_at-absent t m h = ground (arith, h, lookup-has t m.lists)

insert-IsValid :
    (t : String) (ls : List Listener) (n : ℕ) (m : ListenerMap)
    → n ≡ (if has t m.lists then m.count else suc m.count)
    → 1 ≤ length ls
    → ((q : Query) → times q ls ≤ 1)
    → IsValid m
    → IsValid (record { lists = insert t ls m.lists; count = n })
insert-IsValid t ls n m e filled one v = record {
  distinct = insert-distinct t ls m.lists v.distinct;
  counted = ground (arith, e, v.counted, length-insert t ls m.lists);
  filled = λ t' x f. ground (arith, f, lookup-insert t t' ls m.lists, filled, v.filled t' x);
  unique = λ t' q'.
      rw (list_at-insert t t' ls n m)
        (if_elim (λ x. times q' x ≤ 1) (str_eq t t') _ _ (one q') (v.unique t' q'));
}

erase-IsValid :
    (t : String) (m : ListenerMap)
    → has t m.lists ≡ true
    → IsValid m
    → IsValid (record { lists = erase t m.lists; count = m.count - 1 })
erase-IsValid t m h v = record {
  distinct = erase-distinct t m.lists v.distinct;
  counted = omega (arith, v.counted, length-erase t m.lists v.distinct h);
  filled = λ t' x f. ground (arith, f, lookup-erase t t' m.lists, v.filled t' x);
  unique = λ t' q'.
      rw (list_at-erase t t' (m.count - 1) m)
        (if_elim (λ x. times q' x ≤ 1) (str_eq t t') _ _ (omega arith) (v.unique t' q'));
}

put_back-IsValid :
    (t : String) (ls : List Listener) (m : ListenerMap)
    → has t m.lists ≡ true
    → ((q : Query) → times q ls ≤ 1)
    → IsValid m
    → IsValid (put_back t ls m)
unfolding put_back
put_back-IsValid t [] m h one v = erase-IsValid t m h v
put_back-IsValid t (l ∷ ls) m h one v =
    insert-IsValid t (l ∷ ls) m.count m (rw h refl) (omega arith) one v

empty-IsValid : (n : ℕ) → n ≡ 0 → IsValid (record { lists = []; count = n })
unfolding list_at lookup DistinctTexts
empty-IsValid n e = record {
  distinct = tt;
  counted = e;
  filled = λ t ls f. absurd (ground (arith, f));
  unique = λ t q. omega arith;
}

remove-IsValid : (t : String) (q : Query) (m : ListenerMap) → IsValid m → IsValid (remove t q m).0
unfolding remove
remove-IsValid t q m v =
    if_cases (λ (r : ListenerMap × Bool). IsValid r.0) (has t m.lists) _ _
      (λ h. elim (Option-cases (find_index q (list_at t m))) [
        | inl n ↦ rw n v
        | inr (i, e) ↦ rw e (
            put_back-IsValid t (erase_at i (list_at t m)) m h
              (λ p. ground (arith, times-erase_at p (list_at t m) i, v.unique t p)) v)
      ])
      (λ h. v)

pub step-IsValid : (c : Call) (m : ListenerMap) → IsValid m → IsValid (step c m)
unfolding step add remove_all
step-IsValid (adds key t q once) m v =
    insert-IsValid t _ _ m refl (add_to-filled key t q once (list_at t m))
      (λ p. times-add_to key t q p once (list_at t m) (v.unique t p)) v
step-IsValid (removes t q) m v = remove-IsValid t q m v
step-IsValid (removes_all none) m v = empty-IsValid _ (omega (arith, v.counted))
step-IsValid (removes_all (some t)) m v =
    if_elim IsValid (str_eq t "") _ _ (empty-IsValid _ (omega (arith, v.counted)))
      (if_cases IsValid (has t m.lists) _ _ (λ h. erase-IsValid t m h v) (λ h. v))

unfoldable pub run : List Call → ListenerMap → ListenerMap
run [] m = m
run (c ∷ cs) m = run cs (step c m)

run-IsValid_from : (cs : List Call) (m : ListenerMap) → IsValid m → IsValid (run cs m)
unfolding run
run-IsValid_from [] m v = v
run-IsValid_from (c ∷ cs) m v = run-IsValid_from cs (step c m) (step-IsValid c m v)

pub new_map-IsValid : IsValid new_map
unfolding new_map
new_map-IsValid = empty-IsValid 0 refl

-- After any calls the types differ, the count is that of the types, and each type has listeners, of
-- which no two are for the same function, phase and scope.
run-IsValid : (cs : List Call) → IsValid (run cs new_map)
run-IsValid cs = run-IsValid_from cs new_map new_map-IsValid
