-- ===== src/Prompt/ListenerMap/Refines.antt =====
-- The map is a table of listeners by type and query.
use demolition_app.Base.{
  ℕ, suc, ◌-◌, ◌≡◌, inl, inr, refl, sym, ap, ◌∙◌, String, str_eq, eq_iff, Bool, true, ◌&&◌, Option,
  some, none, List, [], ◌∷◌, if◌then◌else◌, Bool-cases, Option-cases, arith,
}
use demolition_app.Base.Dict.{lookup, has}
use demolition_app.Prompt.ListenerMap.Found.{
  once_of, both, once_of-add_to, found-once, once_of-erase_at, find_index-none, same_query-once,
}
use demolition_app.Prompt.ListenerMap.Valid.{
  new_map-IsValid, step-IsValid, run, Call, adds, removes, removes_all, step, IsValid,
  list_at-insert, list_at-erase, list_at-put_back, list_at-absent,
}
use demolition_app.Prompt.Container.{erase_at}
use demolition_app.Prompt.ListenerMap.{
  new_map, Query, ListenerMap, same_query, find_index, list_at, add_to, add, remove, remove_all,
  get_listener,
}

abbrev pub Table : Type 0
Table = String → Query → Option Bool

pub table_step : Call → Table → Table
table_step (adds key t q once) v t' q' =
    if str_eq t t' && same_query q q' then some (both (v t q) once) else v t' q'
table_step (removes t q) v t' q' = if str_eq t t' && same_query q q' then none else v t' q'
table_step (removes_all none) v t' q' = none
table_step (removes_all (some t)) v t' q' =
    if str_eq t "" then none else if str_eq t t' then none else v t' q'

pub table_of : ListenerMap → Table
table_of m t q = elim (get_listener t q m) [ none ↦ none | some l ↦ some l.once ]

table_of-once :
    (m : ListenerMap) (t : String) (q : Query) → table_of m t q ≡ once_of q (list_at t m)
unfolding table_of get_listener
table_of-once m t q = elim (Option-cases (find_index q (list_at t m))) [
  | inl n ↦ rw (table_of, get_listener, n) (sym (find_index-none q (list_at t m) n))
  | inr (i, e) ↦ rw (table_of, get_listener, e) (found-once q (list_at t m) i e)
]

same_str : (t t' : String) (m : ListenerMap) → str_eq t t' ≡ true → list_at t m ≡ list_at t' m
same_str t t' m h = ap (λ x. list_at x m) ((eq_iff t t').0 h)

add-refines :
    (key : ℕ) (t : String) (q : Query) (once : Bool) (m : ListenerMap) (t' : String) (q' : Query)
    → table_of (add key t q once m) t' q' ≡ table_step (adds key t q once) (table_of m) t' q'
unfolding add table_step
add-refines key t q once m t' q' = rw (table_of-once (add key t q once m) t' q') (
    rw (table_of-once m t q) (
      rw (table_of-once m t' q') (
        rw
          (list_at-insert t t' (add_to key t q once (find_index q (list_at t m)) (list_at t m))
            (if has t m.lists then m.count else suc m.count) m)
          (elim (Bool-cases (str_eq t t')) [
            | inl e ↦ rw e (
                once_of-add_to key t q q' once (list_at t m)
                ∙ ap
                    (λ x.
                      if same_query q q'
                      then some (both (once_of q (list_at t m)) once)
                      else once_of q' x)
                    (same_str t t' m e))
            | inr e ↦ rw e refl
          ]))))

-- What is not in the table need not be taken out.
absent_stays :
    (t : String) (q : Query) (m : ListenerMap) (t' : String) (q' : Query)
    → once_of q (list_at t m) ≡ none
    → once_of q' (list_at t' m)
      ≡ (if str_eq t t' && same_query q q' then none else once_of q' (list_at t' m))
absent_stays t q m t' q' h = elim (Bool-cases (str_eq t t')) [
  | inl e ↦
      rw e (rw (sym (same_str t t' m e)) (ground (arith, h, same_query-once q q' (list_at t m))))
  | inr e ↦ rw e refl
]

remove-refines :
    (t : String) (q : Query) (m : ListenerMap) (t' : String) (q' : Query)
    → IsValid m
    → table_of (remove t q m).0 t' q' ≡ table_step (removes t q) (table_of m) t' q'
unfolding remove table_step
remove-refines t q m t' q' v = rw (table_of-once (remove t q m).0 t' q') (
    rw (table_of-once m t' q') (elim (Bool-cases (has t m.lists)) [
      | inl h ↦ elim (Option-cases (find_index q (list_at t m))) [
        | inl n ↦ rw (h, n) (absent_stays t q m t' q' (find_index-none q (list_at t m) n))
        | inr (i, f) ↦
            rw (h, f)
              (rw (list_at-put_back t t' (erase_at i (list_at t m)) m)
                (elim (Bool-cases (str_eq t t')) [
                  | inl e ↦ rw e (
                      rw (sym (same_str t t' m e))
                        (once_of-erase_at q q' (list_at t m) i f (v.unique t q')))
                  | inr e ↦ rw e refl
                ]))
      ]
      | inr h ↦ rw h (absent_stays t q m t' q' (rw (list_at-absent t m h) refl))
    ]))

remove_all-refines :
    (o : Option String) (m : ListenerMap) (t' : String) (q' : Query)
    → table_of (remove_all o m) t' q' ≡ table_step (removes_all o) (table_of m) t' q'
unfolding remove_all table_step list_at lookup
remove_all-refines none m t' q' = table_of-once (remove_all none m) t' q'
remove_all-refines (some t) m t' q' = rw (table_of-once (remove_all (some t) m) t' q') (
    rw (table_of-once m t' q') (elim (Bool-cases (str_eq t "")) [
      | inl e ↦ rw e refl
      | inr e ↦ rw e (elim (Bool-cases (has t m.lists)) [
        | inl h ↦ rw h (
            rw (list_at-erase t t' (m.count - 1) m)
              (elim (Bool-cases (str_eq t t')) [ inl f ↦ rw f refl | inr f ↦ rw f refl ]))
        | inr h ↦ rw h (elim (Bool-cases (str_eq t t')) [
          | inl f ↦ rw f (rw (sym (same_str t t' m f)) (rw (list_at-absent t m h) refl))
          | inr f ↦ rw f refl
        ])
      ])
    ]))

step-refines :
    (c : Call) (m : ListenerMap) (t : String) (q : Query)
    → IsValid m
    → table_of (step c m) t q ≡ table_step c (table_of m) t q
unfolding step
step-refines (adds key p x once) m t q v = add-refines key p x once m t q
step-refines (removes p x) m t q v = remove-refines p x m t q v
step-refines (removes_all o) m t q v = remove_all-refines o m t q

-- The table depends on nothing but what it says.
table_step-same :
    (c : Call) (v w : Table)
    → ((t : String) (q : Query) → v t q ≡ w t q)
    → (t : String) (q : Query) → table_step c v t q ≡ table_step c w t q
unfolding table_step
table_step-same (adds key p x once) v w h t q = rw (h p x) (rw (h t q) refl)
table_step-same (removes p x) v w h t q = rw (h t q) refl
table_step-same (removes_all none) v w h t q = refl
table_step-same (removes_all (some p)) v w h t q = rw (h t q) refl

pub table_run : List Call → Table → Table
table_run [] v = v
table_run (c ∷ cs) v = table_run cs (table_step c v)

run-refines_from :
    (cs : List Call) (m : ListenerMap) (v : Table)
    → IsValid m
    → ((t : String) (q : Query) → table_of m t q ≡ v t q)
    → (t : String) (q : Query) → table_of (run cs m) t q ≡ table_run cs v t q
unfolding run table_run
run-refines_from [] m v i h t q = h t q
run-refines_from (c ∷ cs) m v i h t q =
    run-refines_from cs (step c m) (table_step c v) (step-IsValid c m i)
      (λ t q. step-refines c m t q i ∙ table_step-same c (table_of m) v h t q) t q

-- What is found after any calls, for a type, a function, a phase and a scope, is what a plain table
-- of these holds: an added listener is there, called once only when each addition since it came
-- asked for that, and one that was removed, or all of whose type were, is not.
pub run-refines :
    (cs : List Call) (t : String) (q : Query)
    → table_of (run cs new_map) t q ≡ table_run cs (λ t q. none) t q
unfolding new_map list_at lookup
run-refines cs t q =
    run-refines_from cs new_map (λ t q. none) new_map-IsValid (λ t q. table_of-once new_map t q) t q
