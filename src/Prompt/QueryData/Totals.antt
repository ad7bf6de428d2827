-- ===== src/Prompt/QueryData/Totals.antt =====
-- The count of the values.
use demolition_app.Base.{
  ℕ, suc, ◌+◌, ◌==◌, ◌≡◌, ◌≤◌, refl, String, str_eq, eq_iff, true, false, some, none, List, [], ◌∷◌,
  ◌++◌, length, length-append, if◌then◌else◌, if_cases, Bool-cases, Option-cases, inl, inr, arith,
}
use demolition_app.Base.Dict.{
  Dict, lookup, has, insert, erase, dict_keys, DistinctTexts, lookup-has, has_iff, erase_absent,
  insert-distinct, erase-distinct,
}
use demolition_app.Prompt.QueryData.{
  Store, QueryData, write, allocate, values_of, clone, clear, add_to, key_of, add, remove, set,
}

-- The number of all values, and how many keys have an array.
abbrev pub total : (ℕ → List String) → Dict ℕ → ℕ
total arrays [] = 0
total arrays ((k, r) ∷ d) = length (arrays r) + total arrays d

abbrev pub uses : ℕ → Dict ℕ → ℕ
uses r [] = 0
uses r ((k, s) ∷ d) = if s == r then suc (uses r d) else uses r d

total-write_unused :
    (h : Store) (r : ℕ) (xs : List String) (d : Dict ℕ)
    → uses r d ≡ 0
    → total (write r xs h).arrays d ≡ total h.arrays d
unfolding write
total-write_unused h r xs [] u = refl
total-write_unused h r xs ((k, s) ∷ d) u = ground (arith, u, total-write_unused h r xs d)

total-write :
    (h : Store) (r : ℕ) (xs : List String) (d : Dict ℕ)
    → uses r d ≡ 1
    → total (write r xs h).arrays d + length (h.arrays r) ≡ total h.arrays d + length xs
unfolding write
total-write h r xs [] u = absurd (omega (arith, u))
total-write h r xs ((k, s) ∷ d) u =
    ground (arith, u, total-write h r xs d, total-write_unused h r xs d)

lookup-uses : (k : String) (r : ℕ) (d : Dict ℕ) → lookup k d ≡ some r → 1 ≤ uses r d
unfolding lookup
lookup-uses k r [] e = absurd (ground (arith, e))
lookup-uses k r ((j, s) ∷ d) e = ground (arith, e, lookup-uses k r d)

total-insert :
    (h : Store) (k : String) (r : ℕ) (d : Dict ℕ)
    → total h.arrays (insert k r d) + length (values_of (lookup k d) h.arrays)
      ≡ total h.arrays d + length (h.arrays r)
unfolding insert lookup values_of
total-insert h k r [] = omega arith
total-insert h k r ((j, s) ∷ d) = elim (Bool-cases (str_eq j k)) [
  | inl e ↦ rw e (omega arith)
  | inr e ↦ rw e (omega (arith, total-insert h k r d))
]

uses-insert :
    (s : ℕ) (k : String) (r : ℕ) (d : Dict ℕ)
    → uses s (insert k r d) ≤ (if r == s then suc (uses s d) else uses s d)
unfolding insert
uses-insert s k r [] = omega arith
uses-insert s k r ((j, t) ∷ d) = ground (arith, uses-insert s k r d)

total-erase :
    (h : Store) (k : String) (d : Dict ℕ)
    → DistinctTexts (dict_keys d)
    → total h.arrays (erase k d) + length (values_of (lookup k d) h.arrays) ≡ total h.arrays d
unfolding erase lookup values_of DistinctTexts
total-erase h k [] u = refl
total-erase h k ((j, s) ∷ d) (n, u) = elim (Bool-cases (str_eq j k)) [
  | inl e ↦ rw e (rw (erase_absent k d (absent e)) (omega arith))
  | inr e ↦ rw e (omega (arith, total-erase h k d u))
]
  where
    absent : str_eq j k ≡ true → has k d ≡ false
    absent e = ground (arith, n, e, eq_iff j k, has_iff k d, Bool-cases (has k d))

uses-erase : (s : ℕ) (k : String) (d : Dict ℕ) → uses s (erase k d) ≤ uses s d
unfolding erase
uses-erase s k [] = omega arith
uses-erase s k ((j, t) ∷ d) = ground (arith, uses-erase s k d)

-- The keys differ, each has an array of its own, which is not the next one, and the count is right.
pub record IsCounted (h : Store) (q : QueryData) : Type 0 where
  pub distinct : DistinctTexts (dict_keys q.refs)
  pub own : (r : ℕ) → uses r q.refs ≤ 1
  pub fresh : (r : ℕ) → h.next ≤ r → uses r q.refs ≡ 0
  pub counted : q.count ≡ total h.arrays q.refs

absent-none : (k : String) (d : Dict ℕ) → has k d ≡ false → lookup k d ≡ none
absent-none k d e = ground (arith, e, lookup-has k d)

new-length : (v : String) (h : Store) → length ((write h.next (v ∷ []) h).arrays h.next) ≡ 1
unfolding write
new-length v h = ground arith

values-kept :
    (k v : String) (h : Store) (q : QueryData)
    → IsCounted h q
    → length (values_of (lookup k q.refs) (write h.next (v ∷ []) h).arrays)
      ≡ length (values_of (lookup k q.refs) h.arrays)
unfolding values_of write
values-kept k v h q c = elim (Option-cases (lookup k q.refs)) [
  | inl n ↦ rw n refl
  | inr (r, e) ↦ rw e (ground (arith, lookup-uses k r q.refs e, c.fresh h.next))
]

-- A key gets a new array of one value; n is the number of the other values.
renewed-IsCounted :
    (k v : String) (n : ℕ) (h : Store) (q : QueryData)
    → n + length (values_of (lookup k q.refs) h.arrays) ≡ total h.arrays q.refs
    → IsCounted h q
    → IsCounted
        (allocate (v ∷ []) h)
        (record q { refs = insert k h.next q.refs; count = suc n; text = none })
unfolding allocate write
renewed-IsCounted k v n h q e c = record {
  distinct = insert-distinct k h.next q.refs c.distinct;
  own = λ r. ground (arith, uses-insert r k h.next q.refs, c.own r, c.fresh h.next);
  fresh = λ r l. ground (arith, l, uses-insert r k h.next q.refs, c.fresh r);
  counted = omega (
    arith,
    e,
    total-insert (write h.next (v ∷ []) h) k h.next q.refs,
    total-write_unused h h.next (v ∷ []) q.refs (c.fresh h.next (omega arith)),
    values-kept k v h q c,
    new-length v h,
  );
}

appended-IsCounted :
    (k v : String) (r : ℕ) (h : Store) (q : QueryData)
    → lookup k q.refs ≡ some r
    → IsCounted h q
    → IsCounted (write r (h.arrays r ++ v ∷ []) h) (record q { count = suc q.count; text = none })
unfolding write
appended-IsCounted k v r h q e c = record {
  distinct = c.distinct;
  own = c.own;
  fresh = c.fresh;
  counted = omega (
    arith,
    c.counted,
    total-write h r (h.arrays r ++ v ∷ []) q.refs
        (omega (arith, c.own r, lookup-uses k r q.refs e)),
    length-append (h.arrays r) (v ∷ []),
  );
}

add-IsCounted :
    (lower : String → String) (k v : String) (h : Store) (q : QueryData)
    → IsCounted h q
    → let r = add lower k v h q in IsCounted r.0 r.1
unfolding add add_to values_of
add-IsCounted lower k v h q c = elim (Option-cases (lookup (key_of lower q k) q.refs)) [
  | inl n ↦
      rw n (renewed-IsCounted (key_of lower q k) v q.count h q (rw n (omega (arith, c.counted))) c)
  | inr (r, e) ↦ rw e (appended-IsCounted (key_of lower q k) v r h q e c)
]

remove-IsCounted :
    (lower : String → String) (k : String) (h : Store) (q : QueryData)
    → IsCounted h q
    → IsCounted h (remove lower k h q)
unfolding remove
remove-IsCounted lower k h q c =
    let j = key_of lower q k in
    if_cases (IsCounted h) (has j q.refs) _ _
      (λ e. record {
        distinct = erase-distinct j q.refs c.distinct;
        own = λ r. omega (arith, uses-erase r j q.refs, c.own r);
        fresh = λ r l. omega (arith, uses-erase r j q.refs, c.fresh r l);
        counted = omega (arith, c.counted, total-erase h j q.refs c.distinct);
      })
      (λ e. c)

set-IsCounted :
    (lower : String → String) (k v : String) (h : Store) (q : QueryData)
    → IsCounted h q
    → let r = set lower k v h q in IsCounted r.0 r.1
unfolding set values_of
set-IsCounted lower k v h q c =
    let j = key_of lower q k in
    renewed-IsCounted j v _ h q
      (if_cases (λ n. n + length (values_of (lookup j q.refs) h.arrays) ≡ total h.arrays q.refs)
        (has j q.refs) _ _ (λ e. omega (arith, c.counted, total-erase h j q.refs c.distinct))
        (λ e. rw (absent-none j q.refs e) (omega (arith, c.counted))))
      c

pub data Call : Type 0 where
  adds sets : String → String → Call
  removes : String → Call
  clears : Call

-- The calls that change the data.
pub step : (String → String) → Call → Store × QueryData → Store × QueryData
step lower (adds k v) (h, q) = add lower k v h q
step lower (sets k v) (h, q) = set lower k v h q
step lower (removes k) (h, q) = (h, remove lower k h q)
step lower clears (h, q) = (h, clear q)

pub run : (String → String) → List Call → Store × QueryData → Store × QueryData
run lower [] s = s
run lower (c ∷ cs) s = run lower cs (step lower c s)

step-IsCounted :
    (lower : String → String) (c : Call) (s : Store × QueryData)
    → IsCounted s.0 s.1
    → IsCounted (step lower c s).0 (step lower c s).1
unfolding step clear DistinctTexts
step-IsCounted lower (adds k v) (h, q) i = add-IsCounted lower k v h q i
step-IsCounted lower (sets k v) (h, q) i = set-IsCounted lower k v h q i
step-IsCounted lower (removes k) (h, q) i = remove-IsCounted lower k h q i
step-IsCounted lower clears (h, q) i = record {
  distinct = tt;
  own = λ r. omega arith;
  fresh = λ r l. refl;
  counted = refl;
}

-- When the keys have arrays of their own and the count is that of the values, it stays so under all
-- calls that change the data.
run-IsCounted :
    (lower : String → String) (cs : List Call) (s : Store × QueryData)
    → IsCounted s.0 s.1
    → IsCounted (run lower cs s).0 (run lower cs s).1
unfolding run
run-IsCounted lower [] s i = i
run-IsCounted lower (c ∷ cs) s i =
    run-IsCounted lower cs (step lower c s) (step-IsCounted lower c s i)

-- A copy shares the arrays: when a value is added through it to a key that is there, the data that
-- was copied holds one value more than its count says.
pub add-clone :
    (lower : String → String) (k v : String) (r : ℕ) (h : Store) (q : QueryData)
    → IsCounted h q
    → lookup k q.refs ≡ some r
    → total (add lower k v h (clone q)).0.arrays q.refs ≡ suc q.count
unfolding add add_to key_of clone write
add-clone lower k v r h q c e = rw e (
    omega (
      arith,
      c.counted,
      total-write h r (h.arrays r ++ v ∷ []) q.refs
          (omega (arith, c.own r, lookup-uses k r q.refs e)),
      length-append (h.arrays r) (v ∷ []),
    ))
