-- ===== src/Prompt/StructsMap.antt =====
-- The map with texts as keys (`Ee`): an object with the values, an array with the keys, which may
-- still hold removed ones, the number of entries, and a version that each change raises.
pub mod Valid
pub mod Lookup
pub mod Iteration
use demolition_app.Base.{
  ℕ, zero, suc, ◌+◌, ◌*◌, ◌-◌, ◌≡◌, String, Bool, true, false, Option, some, none, List, [], ◌∷◌,
  ◌++◌, map, ltb, leb, ◌==◌, if◌then◌else◌, length, get_elem?, str_eq,
}
use demolition_app.Base.Dict.{Dict, lookup, has, insert, erase}

-- `Tb`, `oa`, `ia` and `Dd`
pub record StructsMap {ℓ} (V : Type ℓ) : Type ℓ where
  pub values : Dict V
  pub keys : List String
  pub count : ℕ
  pub version : ℕ

-- An element of an array of texts, as `e[d]` of `Fe` marks it.
unfoldable pub contains_text : List String → String → Bool
contains_text [] k = false
contains_text (j ∷ js) k = if str_eq j k then true else contains_text js k

-- The second loop of `Fe` keeps the first occurrence of each key; `seen` is `e`.
pub first_keys : List String → List String → List String
first_keys seen [] = []
first_keys seen (k ∷ ks) =
    let fresh = k ∷ first_keys (k ∷ seen) ks in
    let old = first_keys seen ks in if contains_text seen k then old else fresh

-- The iterator of `Ee`: its position and the version that it was made at.
pub record Iterator : Type 0 where
  pub position : ℕ
  pub made_at : ℕ

-- What `next` does: it throws, stops, or gives a key and its value.
pub data Next {ℓ} (V : Type ℓ) : Type ℓ where
  changed : Next V
  stop : Next V
  item : Iterator → String → Option V → Next V

module _ {ℓ} {V : Type ℓ} where
  -- `new Ee`
  abbrev pub empty : StructsMap V
  empty = record { values = []; keys = []; count = 0; version = 0 }

  -- The first loop of `Fe` keeps the keys that have a value.
  pub live_keys : Dict V → List String → List String
  live_keys d [] = []
  live_keys d (k ∷ ks) = let rest = live_keys d ks in if has k d then k ∷ rest else rest

  -- `Fe`
  pub clean : StructsMap V → StructsMap V
  clean m =
      if m.count == length m.keys
      then m
      else let live = live_keys m.values m.keys in
        if m.count == length live
        then record m { keys = live }
        else record m { keys = first_keys [] live }

  -- `get`, `Me` and `Nf`
  pub get : StructsMap V → String → Option V → Option V
  get m k default = if has k m.values then lookup k m.values else default

  pub contains_key : StructsMap V → String → Bool
  contains_key m k = has k m.values

  pub get_count : StructsMap V → ℕ
  get_count m = m.count

  -- `set`
  pub set : StructsMap V → String → V → StructsMap V
  set m k v = if has k m.values then record m { values = insert k v m.values } else record {
    values = insert k v m.values;
    keys = m.keys ++ k ∷ [];
    count = m.count + 1;
    version = m.version + 1;
  }

  -- The deletion of `remove`, before the keys may be cleaned.
  removed : StructsMap V → String → StructsMap V
  removed m k = record m { values = erase k m.values; count = m.count - 1; version = m.version + 1 }

  -- `remove`
  pub remove : StructsMap V → String → StructsMap V × Bool
  unfolding removed
  remove m k =
      let m' = removed m k in
      if has k m.values
      then ((if ltb (2 * m'.count) (length m'.keys) then clean m' else m'), true)
      else (m, false)

  -- `clear`
  pub clear : StructsMap V → StructsMap V
  clear m = record { values = []; keys = []; count = 0; version = 0 }

  -- `Pb` and `gc` clean the map, and give its keys and its values.
  pub get_keys : StructsMap V → StructsMap V × List String
  get_keys m = let m' = clean m in (m', m'.keys)

  pub values_at : Dict V → List String → List (Option V)
  values_at d [] = []
  values_at d (k ∷ ks) = lookup k d ∷ values_at d ks

  pub get_values : StructsMap V → StructsMap V × List (Option V)
  get_values m = let m' = clean m in (m', values_at m'.values m'.keys)

  -- `addAll` of another map, which is cleaned by it: one `set` for each key; `undefined` is
  -- what reading a key with no value gives.
  pub set_all : V → StructsMap V → Dict V → List String → StructsMap V
  set_all undefined m d [] = m
  set_all undefined m d (k ∷ ks) =
      set_all undefined (set m k (elim (lookup k d) [ none ↦ undefined | some v ↦ v ])) d ks

  pub add_all : V → StructsMap V → StructsMap V → StructsMap V
  add_all undefined m other = let o = clean other in set_all undefined m o.values o.keys

  -- `clone`
  pub clone : V → StructsMap V → StructsMap V
  clone undefined m = add_all undefined empty m

  pub iterator : StructsMap V → StructsMap V × Iterator
  iterator m = let m' = clean m in (m', record { position = 0; made_at = m.version })

  -- `next`, with the key and the value that it may give.
  pub next : StructsMap V → Iterator → Next V
  next m it =
      if it.made_at == m.version
      then (elim (get_elem? m.keys it.position) [
        | none ↦ stop
        | some k ↦ item (record it { position = it.position + 1 }) k (lookup k m.values)
      ])
      else changed
