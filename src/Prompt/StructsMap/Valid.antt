-- ===== src/Prompt/StructsMap/Valid.antt =====
-- The invariant of the map, and that every operation keeps it.
use demolition_app.Base.{
  ◌*◌, ◌≡◌, refl, String, Bool, true, false, List, [], ◌∷◌, ◌++◌, ◌⊎◌, inl, inr, ◌∙◌, ◌↔◌, ltb,
  ◌==◌, if◌then◌else◌, length, eq_iff, Occurs, Occurs-append_left, Occurs-append_right, Bool-cases,
  arith,
}
use demolition_app.Base.Dict.{
  Dict, DistinctTexts, dict_keys, has, has-insert, has-erase, insert-distinct, erase-distinct,
  has_iff, length-dict_keys, length-insert, length-erase,
}
use demolition_app.Base.Pigeonhole.{pigeonhole}
use demolition_app.Prompt.StructsMap.{
  StructsMap, contains_text, first_keys, empty, live_keys, clean, set, removed, remove, clear,
  set_all, add_all, clone, get_keys, get_values,
}

Occurs-first_keys :
    (seen ks : List String) (k : String)
    → Occurs k (first_keys seen ks) ↔ (Occurs k ks × (contains_text seen k ≡ false))
unfolding first_keys contains_text
Occurs-first_keys seen [] k = ground arith
Occurs-first_keys seen (j ∷ ks) k =
    ground (arith, eq_iff j k, Occurs-first_keys seen ks k, Occurs-first_keys (j ∷ seen) ks k)

first_keys-distinct : (seen ks : List String) → DistinctTexts (first_keys seen ks)
unfolding first_keys contains_text DistinctTexts
first_keys-distinct seen [] = tt
first_keys-distinct seen (j ∷ ks) = ground (
  arith,
  eq_iff j j,
  first_keys-distinct seen ks,
  first_keys-distinct (j ∷ seen) ks,
  Occurs-first_keys (j ∷ seen) ks j,
)

module _ {ℓ} {V : Type ℓ} where
  -- The keys of the object differ, the count is their number, and each is in the array of keys.
  pub record IsValid (m : StructsMap V) : Type ℓ where
    pub distinct : DistinctTexts (dict_keys m.values)
    pub counted : m.count ≡ length m.values
    pub listed : (k : String) → has k m.values ≡ true → Occurs k m.keys

  pub empty-IsValid : IsValid empty
  unfolding DistinctTexts has
  empty-IsValid = record { distinct = tt; counted = refl; listed = λ k h. cc }

  pub set-IsValid : (m : StructsMap V) (k : String) (v : V) → IsValid m → IsValid (set m k v)
  unfolding set
  set-IsValid m k v h = elim (Bool-cases (has k m.values)) [
    | inl old ↦ rw old (record {
      distinct = insert-distinct k v m.values h.distinct;
      counted = ground (arith, h.counted, length-insert k v m.values);
      listed = λ j e. h.listed j (ground (arith, eq_iff k j, has-insert k j v m.values));
    })
    | inr new ↦ rw new (record {
      distinct = insert-distinct k v m.values h.distinct;
      counted = ground (arith, h.counted, length-insert k v m.values);
      listed = λ j e. added j (ground (arith, eq_iff k j, has-insert k j v m.values));
    })
  ]
    where
      added : (j : String) → (k ≡ j) ⊎ (has j m.values ≡ true) → Occurs j (m.keys ++ k ∷ [])
      added j (inl e) = Occurs-append_right j m.keys (k ∷ []) (inl e)
      added j (inr e) = Occurs-append_left j m.keys (k ∷ []) (h.listed j e)

  Occurs-live_keys :
      (d : Dict V) (ks : List String) (k : String)
      → Occurs k (live_keys d ks) ↔ (Occurs k ks × (has k d ≡ true))
  unfolding live_keys
  Occurs-live_keys d [] k = ground arith
  Occurs-live_keys d (j ∷ ks) k = ground (arith, Occurs-live_keys d ks k)

  removed-IsValid :
      (m : StructsMap V) (k : String) → has k m.values ≡ true → IsValid m → IsValid (removed m k)
  unfolding removed
  removed-IsValid m k old h = record {
    distinct = erase-distinct k m.values h.distinct;
    counted = omega (arith, length-erase k m.values h.distinct old, h.counted);
    listed = λ j e. h.listed j (ground (arith, has-erase k j m.values));
  }

  -- The keys of the array are those of the object, each once.
  abbrev pub KeysAreExact : Dict V → List String → Type 0
  KeysAreExact d ks = DistinctTexts ks × ((k : String) → Occurs k ks ↔ (has k d ≡ true))

  exact_of_length :
      (d : Dict V) (ks : List String)
      → DistinctTexts (dict_keys d)
      → ((k : String) → has k d ≡ true → Occurs k ks)
      → length d ≡ length ks
      → KeysAreExact d ks
  exact_of_length d ks h sub n =
      let (once, back) =
        pigeonhole (dict_keys d) ks h (λ k o. sub k ((has_iff k d).1 o)) (length-dict_keys d ∙ n) in
      (once, λ k. ((λ o. (has_iff k d).1 (back k o)), sub k))

  first_keys-exact :
      (m : StructsMap V)
      → IsValid m
      → KeysAreExact m.values (first_keys [] (live_keys m.values m.keys))
  unfolding contains_text
  first_keys-exact m h =
      let live = live_keys m.values m.keys in
      (
        first_keys-distinct [] live,
        λ k. (
          λ o. ((Occurs-live_keys m.values m.keys k).0 ((Occurs-first_keys [] live k).0 o).0).1,
          λ e.
              (Occurs-first_keys [] live k).1
                ((Occurs-live_keys m.values m.keys k).1 (h.listed k e, e), refl),
        ),
      )

  -- Cleaning keeps the values, the count and the version, and leaves the keys exact.
  pub clean-exact :
      (m : StructsMap V)
      → IsValid m
      → ((clean m).values ≡ m.values)
        × ((clean m).count ≡ m.count)
        × ((clean m).version ≡ m.version)
        × KeysAreExact m.values (clean m).keys
  unfolding clean
  clean-exact m h = elim (Bool-cases (m.count == length m.keys)) [
    | inl same ↦
        rw same
          (refl, refl, refl, exact_of_length m.values m.keys h.distinct h.listed (ground arith))
    | inr differ ↦ elim (Bool-cases (m.count == length (live_keys m.values m.keys))) [
      | inl same ↦
          rw (differ, same)
            (
              refl,
              refl,
              refl,
              exact_of_length m.values (live_keys m.values m.keys) h.distinct
                  (λ k e. (Occurs-live_keys m.values m.keys k).1 (h.listed k e, e)) (ground arith),
            )
      | inr double ↦ rw (differ, double) (refl, refl, refl, first_keys-exact m h)
    ]
  ]

  clean-IsValid : (m : StructsMap V) → IsValid m → IsValid (clean m)
  clean-IsValid m h =
      let (values, count, version, exact) = clean-exact m h in
      record {
        distinct = rw values h.distinct;
        counted = rw (values, count) h.counted;
        listed = λ k e. (exact.1 k).1 (rw values at e);
      }

  remove-IsValid : (m : StructsMap V) (k : String) → IsValid m → IsValid (remove m k).0
  unfolding remove
  remove-IsValid m k h = elim (Bool-cases (has k m.values)) [
    | inl old ↦ rw old (choose (ltb (2 * (removed m k).count) (length (removed m k).keys)) old)
    | inr new ↦ rw new h
  ]
    where
      choose :
          (b : Bool)
          → has k m.values ≡ true
          → IsValid (if b then clean (removed m k) else removed m k)
      choose true old = clean-IsValid (removed m k) (removed-IsValid m k old h)
      choose false old = removed-IsValid m k old h

  set_all-IsValid :
      (u : V) (d : Dict V) (ks : List String) (m : StructsMap V)
      → IsValid m
      → IsValid (set_all u m d ks)
  unfolding set_all
  set_all-IsValid u d [] m h = h
  set_all-IsValid u d (k ∷ ks) m h = set_all-IsValid u d ks _ (set-IsValid m k _ h)

  -- The empty and the cleared map are valid, and so is what every operation makes of valid maps:
  -- an insertion, a removal, the cleaning of the keys, the addition of another map, and a copy.
  pub operations-IsValid :
      (u : V) (m other : StructsMap V) (k : String) (v : V)
      → IsValid m
      → IsValid other
      → IsValid (clear m)
        × IsValid (set m k v)
        × IsValid (remove m k).0
        × IsValid (get_keys m).0
        × IsValid (get_values m).0
        × IsValid (add_all u m other)
        × IsValid (clone u m)
  unfolding clear get_keys get_values add_all clone
  operations-IsValid u m other k v h o = (
    empty-IsValid,
    set-IsValid m k v h,
    remove-IsValid m k h,
    clean-IsValid m h,
    clean-IsValid m h,
    set_all-IsValid u _ _ m h,
    set_all-IsValid u _ _ empty empty-IsValid,
  )
