-- ===== src/Prompt/StructsMap/Lookup.antt =====
-- The map as a partial function: what reading gives after each operation.
use demolition_app.Base.{
  ◌≡◌, refl, String, true, Option, some, none, List, [], ◌∷◌, ◌∙◌, ◌↔◌, if◌then◌else◌, str_eq,
  eq_iff, Occurs, arith,
}
use demolition_app.Base.Dict.{
  Dict, lookup, has, insert, erase, lookup-insert, lookup-erase, lookup-has,
}
use demolition_app.Prompt.StructsMap.{
  StructsMap, contains_text, empty, clean, get, contains_key, set, removed, remove, clear, set_all,
  add_all, clone,
}
use demolition_app.Prompt.StructsMap.Valid.{IsValid, clean-exact}

contains_text_iff : (ks : List String) (k : String) → (contains_text ks k ≡ true) ↔ Occurs k ks
unfolding contains_text
contains_text_iff [] k = ground arith
contains_text_iff (j ∷ ks) k = ground (arith, eq_iff j k, contains_text_iff ks k)

module _ {ℓ} {V : Type ℓ} where
  pub clean-values : (m : StructsMap V) → (clean m).values ≡ m.values
  unfolding clean
  clean-values m = ground arith

  remove-values :
      (m : StructsMap V) (k : String)
      → (remove m k).0.values ≡ (if has k m.values then erase k m.values else m.values)
  unfolding remove removed
  remove-values m k = ground (arith, clean-values (removed m k))

  get-lookup :
      (m : StructsMap V) (k : String) (default : Option V)
      → get m k default ≡ (elim (lookup k m.values) [ none ↦ default | some v ↦ some v ])
  unfolding get
  get-lookup m k default = ground (arith, lookup-has k m.values)

  set-values : (m : StructsMap V) (k : String) (v : V) → (set m k v).values ≡ insert k v m.values
  unfolding set
  set-values m k v = ground arith

  get-set :
      (m : StructsMap V) (k j : String) (v : V) (default : Option V)
      → get (set m k v) j default ≡ (if str_eq k j then some v else get m j default)
  get-set m k j v default = ground (
    arith,
    get-lookup (set m k v) j default,
    get-lookup m j default,
    set-values m k v,
    lookup-insert k j v m.values,
  )

  get-remove :
      (m : StructsMap V) (k j : String) (default : Option V)
      → get (remove m k).0 j default ≡ (if str_eq k j then default else get m j default)
  get-remove m k j default = ground (
    arith,
    eq_iff k j,
    get-lookup (remove m k).0 j default,
    get-lookup m j default,
    remove-values m k,
    lookup-erase k j m.values,
    lookup-has k m.values,
  )

  remove-found : (m : StructsMap V) (k : String) → (remove m k).1 ≡ contains_key m k
  unfolding remove contains_key
  remove-found m k = ground arith

  -- Reading after a write gives the value at the key that was written, and elsewhere what was there;
  -- reading after a removal gives the default at the key, and elsewhere what was there; the result
  -- of a removal tells whether the key was there; a cleared map gives the default everywhere.
  pub get-after :
      (m : StructsMap V) (k j : String) (v : V) (default : Option V)
      → (get (set m k v) j default ≡ (if str_eq k j then some v else get m j default))
        × (get (remove m k).0 j default ≡ (if str_eq k j then default else get m j default))
        × ((remove m k).1 ≡ contains_key m k)
        × (get (clear m) j default ≡ default)
  unfolding clear get has
  get-after m k j v default =
      (get-set m k j v default, get-remove m k j default, remove-found m k, refl)

  set_all-lookup :
      (u : V) (d : Dict V) (j : String) (ks : List String) (m : StructsMap V)
      → lookup j (set_all u m d ks).values ≡ (
          if contains_text ks j
          then some (elim (lookup j d) [ none ↦ u | some v ↦ v ])
          else lookup j m.values)
  unfolding set_all contains_text
  set_all-lookup u d j [] m = refl
  set_all-lookup u d j (k ∷ ks) m =
      let v : V = elim (lookup k d) [ none ↦ u | some w ↦ w ] in
      set_all-lookup u d j ks (set m k v)
      ∙ rw (set-values m k v) (ground (arith, eq_iff k j, lookup-insert k j v m.values))

  keys_of_clean :
      (m : StructsMap V) (k : String) → IsValid m → contains_text (clean m).keys k ≡ has k m.values
  keys_of_clean m k h = ground (arith, contains_text_iff (clean m).keys k, (clean-exact m h).3.1 k)

  get-added :
      (u : V) (a b : StructsMap V) (k : String) (default : Option V)
      → IsValid b
      → get (add_all u a b) k default
        ≡ (if contains_key b k then get b k default else get a k default)
  unfolding add_all contains_key
  get-added u a b k default h = ground (
    arith,
    get-lookup (add_all u a b) k default,
    get-lookup a k default,
    get-lookup b k default,
    set_all-lookup u (clean b).values k (clean b).keys a,
    clean-values b,
    keys_of_clean b k h,
    lookup-has k b.values,
  )

  -- A copy of a valid map reads as the map does at every key; and after another valid map has been
  -- added, the map reads as the other one where that has the key, and as before elsewhere.
  pub get-add_all :
      (u : V) (m other : StructsMap V) (k : String) (default : Option V)
      → IsValid m
      → IsValid other
      → (get (clone u m) k default ≡ get m k default)
        × (get (add_all u m other) k default
            ≡ (if contains_key other k then get other k default else get m k default))
  unfolding clone
  get-add_all u m other k default h o =
      (get-added u empty m k default h ∙ missing, get-added u m other k default o)
    where
      missing :
          (if contains_key m k then get m k default else get (empty {V = V}) k default)
          ≡ get m k default
      missing = unfold contains_key get has in ground arith
