-- ===== src/Prompt/ListenerMap/Found.antt =====
-- The first listener of a list for a query, and what changes of the list do to it.
use demolition_app.Base.{
  ℕ, zero, suc, ◌≤◌, ◌≡◌, ◌↔◌, refl, ap, inl, inr, String, Bool, true, false, ◌&&◌, Option, some,
  none, List, [], ◌∷◌, ◌++◌, length, get_elem?, if◌then◌else◌, Option-cases, arith, length-append,
}
use demolition_app.Prompt.Container.{erase_at}
use demolition_app.Prompt.ListenerMap.{
  Query, Listener, same_bool, same_scope, same_query, find_index, clear_once, add_to,
}

same_bool_iff : (a b : Bool) → (same_bool a b ≡ true) ↔ (a ≡ b)
unfolding same_bool
same_bool_iff true true = ground arith
same_bool_iff true false = ground arith
same_bool_iff false true = ground arith
same_bool_iff false false = ground arith

same_scope_iff : (a b : Option ℕ) → (same_scope a b ≡ true) ↔ (a ≡ b)
unfolding same_scope
same_scope_iff none none = ground arith
same_scope_iff none (some b) = ground arith
same_scope_iff (some a) none = ground arith
same_scope_iff (some a) (some b) = ground arith

same_query_iff : (p q : Query) → (same_query p q ≡ true) ↔ (p ≡ q)
unfolding same_query
same_query_iff p q =
    ground (arith, same_bool_iff p.capture q.capture, same_scope_iff p.scope q.scope)

-- Whether the first listener of a list for a query is called once, if there is one.
abbrev pub once_of : Query → List Listener → Option Bool
once_of q [] = none
once_of q (l ∷ ls) = if same_query l.query q then some l.once else once_of q ls

abbrev pub times : Query → List Listener → ℕ
times q [] = 0
times q (l ∷ ls) = if same_query l.query q then suc (times q ls) else times q ls

pub find_index-none :
    (p : Query) (ls : List Listener) → find_index p ls ≡ none → once_of p ls ≡ none
unfolding find_index
find_index-none p [] h = refl
find_index-none p (l ∷ ls) h = ground (arith, h, find_index-none p ls)

found_first :
    (p : Query) (l : Listener) (ls : List Listener)
    → find_index p (l ∷ ls) ≡ some 0
    → same_query l.query p ≡ true
unfolding find_index
found_first p l ls h = ground (arith, h)

found_later :
    (p : Query) (l : Listener) (ls : List Listener) (j : ℕ)
    → find_index p (l ∷ ls) ≡ some (suc j)
    → (same_query l.query p ≡ false) × (find_index p ls ≡ some j)
unfolding find_index
found_later p l ls j h = ground (arith, h)

-- Two queries that are the same are the same as any other.
same_query_trans : (p q r : Query) → same_query p q ≡ true → same_query p r ≡ same_query q r
same_query_trans p q r h = ap (λ x. same_query x r) ((same_query_iff p q).0 h)

pub same_query-once :
    (p q : Query) (ls : List Listener) → same_query p q ≡ true → once_of p ls ≡ once_of q ls
same_query-once p q ls h = ap (λ x. once_of x ls) ((same_query_iff p q).0 h)

-- A query that is not the same as p, but as q: p and q are not the same.
same_query_differ :
    (p q r : Query) → same_query r p ≡ false → same_query r q ≡ true → same_query p q ≡ false
same_query_differ p q r h e =
    ground (arith, h, e, same_query_iff r q, same_query_iff p q, same_query_iff r p)

once_of-none : (q : Query) (ls : List Listener) → times q ls ≡ 0 → once_of q ls ≡ none
once_of-none q [] h = refl
once_of-none q (l ∷ ls) h = ground (arith, h, once_of-none q ls)

times-none : (q : Query) (ls : List Listener) → once_of q ls ≡ none → times q ls ≡ 0
times-none q [] h = refl
times-none q (l ∷ ls) h = ground (arith, h, times-none q ls)

found_nothing : (p : Query) (i : ℕ) → find_index p [] ≡ some i → ⊥
unfolding find_index
found_nothing p i h = ground (arith, h)

-- The listener that was found is the first one for the query.
pub found-once :
    (p : Query) (ls : List Listener) (i : ℕ)
    → find_index p ls ≡ some i
    → (elim (get_elem? ls i) [ none ↦ none | some l ↦ some l.once ]) ≡ once_of p ls
found-once p [] i h = absurd (found_nothing p i h)
found-once p (l ∷ ls) zero h = ground (arith, found_first p l ls h)
found-once p (l ∷ ls) (suc i) h =
    let (differ, at) = found_later p l ls i h in ground (arith, differ, found-once p ls i at)

found_there :
    (p : Query) (ls : List Listener) (i : ℕ)
    → find_index p ls ≡ some i
    → (b : Bool) × (once_of p ls ≡ some b)
found_there p [] i h = absurd (found_nothing p i h)
found_there p (l ∷ ls) zero h = (l.once, ground (arith, found_first p l ls h))
found_there p (l ∷ ls) (suc i) h =
    let (differ, at) = found_later p l ls i h in
    let (b, e) = found_there p ls i at in (b, ground (arith, differ, e))

once_of-clear_once :
    (p q : Query) (ls : List Listener) (i : ℕ)
    → find_index p ls ≡ some i
    → once_of q (clear_once i ls) ≡ (if same_query p q then some false else once_of q ls)
unfolding clear_once
once_of-clear_once p q [] i h = absurd (found_nothing p i h)
once_of-clear_once p q (l ∷ ls) zero h =
    ground (arith, same_query_trans l.query p q (found_first p l ls h))
once_of-clear_once p q (l ∷ ls) (suc i) h =
    let (differ, at) = found_later p l ls i h in
    ground (arith, same_query_differ p q l.query differ, once_of-clear_once p q ls i at)

times-clear_once : (q : Query) (ls : List Listener) (i : ℕ) → times q (clear_once i ls) ≡ times q ls
unfolding clear_once
times-clear_once q [] i = refl
times-clear_once q (l ∷ ls) zero = refl
times-clear_once q (l ∷ ls) (suc i) = ground (arith, times-clear_once q ls i)

pub times-erase_at : (q : Query) (ls : List Listener) (i : ℕ) → times q (erase_at i ls) ≤ times q ls
unfolding erase_at
times-erase_at q [] i = omega arith
times-erase_at q (l ∷ ls) zero = ground arith
times-erase_at q (l ∷ ls) (suc i) = ground (arith, times-erase_at q ls i)

pub once_of-erase_at :
    (p q : Query) (ls : List Listener) (i : ℕ)
    → find_index p ls ≡ some i
    → times q ls ≤ 1
    → once_of q (erase_at i ls) ≡ (if same_query p q then none else once_of q ls)
unfolding erase_at
once_of-erase_at p q [] i h one = absurd (found_nothing p i h)
once_of-erase_at p q (l ∷ ls) zero h one =
    ground (arith, same_query_trans l.query p q (found_first p l ls h), once_of-none q ls, one)
once_of-erase_at p q (l ∷ ls) (suc i) h one =
    let (differ, at) = found_later p l ls i h in
    ground (arith, same_query_differ p q l.query differ, once_of-erase_at p q ls i at, one)

once_of-snoc :
    (q : Query) (ls : List Listener) (l : Listener)
    → once_of q (ls ++ l ∷ []) ≡ (elim (once_of q ls) [
      | none ↦ if same_query l.query q then some l.once else none
      | some b ↦ some b
    ])
once_of-snoc q [] l = refl
once_of-snoc q (x ∷ ls) l = ground (arith, once_of-snoc q ls l)

pub times-snoc :
    (q : Query) (ls : List Listener) (l : Listener)
    → times q (ls ++ l ∷ []) ≡ (if same_query l.query q then suc (times q ls) else times q ls)
times-snoc q [] l = refl
times-snoc q (x ∷ ls) l = ground (arith, times-snoc q ls l)

abbrev pub both : Option Bool → Bool → Bool
both none b = b
both (some a) b = a && b

pub once_of-add_to :
    (key : ℕ) (t : String) (p q : Query) (once : Bool) (ls : List Listener)
    → once_of q (add_to key t p once (find_index p ls) ls)
      ≡ (if same_query p q then some (both (once_of p ls) once) else once_of q ls)
unfolding add_to
once_of-add_to key t p q once ls = elim (Option-cases (find_index p ls)) [
  | inl n ↦ rw n (
      ground (
        arith,
        once_of-snoc q ls (record { key = key; kind = t; query = p; once = once }),
        find_index-none p ls n,
        same_query-once p q ls,
      ))
  | inr (i, e) ↦ rw e (
      ground
        (arith, (found_there p ls i e).1, once_of-clear_once p q ls i e, same_query-once p q ls))
]

pub times-add_to :
    (key : ℕ) (t : String) (p q : Query) (once : Bool) (ls : List Listener)
    → times q ls ≤ 1
    → times q (add_to key t p once (find_index p ls) ls) ≤ 1
unfolding add_to
times-add_to key t p q once ls one = elim (Option-cases (find_index p ls)) [
  | inl n ↦ rw n (
      ground (
        arith,
        times-snoc q ls (record { key = key; kind = t; query = p; once = once }),
        find_index-none p ls n,
        same_query-once p q ls,
        times-none q ls,
        one,
      ))
  | inr (i, e) ↦ rw e (ground (arith, times-clear_once q ls i, one))
]

length-clear_once : (ls : List Listener) (i : ℕ) → length (clear_once i ls) ≡ length ls
unfolding clear_once
length-clear_once [] i = refl
length-clear_once (l ∷ ls) zero = refl
length-clear_once (l ∷ ls) (suc i) = ap suc (length-clear_once ls i)

found_filled : (p : Query) (ls : List Listener) (i : ℕ) → find_index p ls ≡ some i → 1 ≤ length ls
found_filled p [] i h = absurd (found_nothing p i h)
found_filled p (l ∷ ls) i h = omega arith

pub add_to-filled :
    (key : ℕ) (t : String) (p : Query) (once : Bool) (ls : List Listener)
    → 1 ≤ length (add_to key t p once (find_index p ls) ls)
unfolding add_to
add_to-filled key t p once ls = elim (Option-cases (find_index p ls)) [
  | inl n ↦ rw n (
      omega (arith, length-append ls (record { key = key; kind = t; query = p; once = once } ∷ [])))
  | inr (i, e) ↦ rw e (ground (arith, found_filled p ls i e, length-clear_once ls i))
]
