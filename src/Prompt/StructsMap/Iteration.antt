-- ===== src/Prompt/StructsMap/Iteration.antt =====
-- The keys that a reader is given, and the iterator under changes of the map.
use demolition_app.Base.{◌+◌, ◌≡◌, ◌≢◌, String, true, false, ◌↔◌, if◌then◌else◌, Occurs, arith}
use demolition_app.Base.Dict.{DistinctTexts, has}
use demolition_app.Prompt.StructsMap.{
  StructsMap, clean, contains_key, set, removed, remove, get_keys, Iterator, changed, iterator,
  next,
}
use demolition_app.Prompt.StructsMap.Lookup.{clean-values}
use demolition_app.Prompt.StructsMap.Valid.{IsValid, clean-exact}

module _ {ℓ} {V : Type ℓ} where
  -- The keys of a valid map are given each once, and they are exactly those that the map contains.
  pub get_keys-exact :
      (m : StructsMap V)
      → IsValid m
      → DistinctTexts (get_keys m).1
        × ((k : String) → Occurs k (get_keys m).1 ↔ (contains_key m k ≡ true))
  unfolding get_keys contains_key
  get_keys-exact m h = (clean-exact m h).3

  clean-version : (m : StructsMap V) → (clean m).version ≡ m.version
  unfolding clean
  clean-version m = ground arith

  set-version :
      (m : StructsMap V) (k : String) (v : V)
      → (set m k v).version ≡ (if has k m.values then m.version else m.version + 1)
  unfolding set
  set-version m k v = ground arith

  remove-version :
      (m : StructsMap V) (k : String)
      → (remove m k).0.version ≡ (if has k m.values then m.version + 1 else m.version)
  unfolding remove removed
  remove-version m k = ground (arith, clean-version (removed m k))

  next-changed_iff :
      (m : StructsMap V) (it : Iterator) → (next m it ≡ changed) ↔ (it.made_at ≢ m.version)
  unfolding next
  next-changed_iff m it = ground arith

  -- An iterator throws at its next step after a write exactly when the key was new, and after a
  -- removal exactly when the key was there; without a change of the map it does not throw.
  pub next-changed :
      (m : StructsMap V) (k : String) (v : V)
      → let (m', it) = iterator m in
        ((next (set m' k v) it ≡ changed) ↔ (contains_key m k ≡ false))
        × ((next (remove m' k).0 it ≡ changed) ↔ (contains_key m k ≡ true))
        × (next m' it ≢ changed)
  unfolding iterator contains_key
  next-changed m k v =
      let it : Iterator = record { position = 0; made_at = m.version } in
      ground (
        arith,
        clean-version m,
        clean-values m,
        set-version (clean m) k v,
        remove-version (clean m) k,
        next-changed_iff (set (clean m) k v) it,
        next-changed_iff (remove (clean m) k).0 it,
        next-changed_iff (clean m) it,
      )
