-- ===== src/Prompt/QueryData.antt =====
-- The query data `hg` of an address, once its text is read: the values of each key, in an array
-- that a copy of the data shares.
pub mod Totals
mod Examples
use demolition_app.Base.{
  ℕ, suc, ◌+◌, ◌-◌, ◌==◌, String, str_eq, Bool, true, false, Option, some, none, List, [], ◌∷◌,
  ◌++◌, length, if◌then◌else◌,
}
use demolition_app.Base.Dict.{Dict, lookup, has, insert, erase}

-- The arrays, by the number of each, and the number of the next one.
pub record Store : Type 0 where
  pub arrays : ℕ → List String
  pub next : ℕ

-- `wa` with the number of the array of each key, `ia`, `mb` and `Fb`.
pub record QueryData : Type 0 where
  pub refs : Dict ℕ
  pub count : ℕ
  pub text : Option String
  pub ignore_case : Bool

-- `new hg`
pub new_query : Bool → QueryData
new_query ignore_case = record { refs = []; count = 0; text = none; ignore_case = ignore_case }

-- The array r gets other elements.
pub write : ℕ → List String → Store → Store
write r xs h = record h { arrays = λ s. if s == r then xs else h.arrays s }

-- A new array.
pub allocate : List String → Store → Store
unfolding write
allocate xs h = record (write h.next xs h) { next = suc h.next }

-- The elements of the array of a key, none when there is no key.
pub values_of : Option ℕ → (ℕ → List String) → List String
values_of none arrays = []
values_of (some r) arrays = arrays r

-- `gc` of all keys.
pub all_values : Dict ℕ → Store → List String
all_values [] h = []
all_values ((k, r) ∷ d) h = h.arrays r ++ all_values d h

-- `Pb`
pub keys_for : String → List String → List String
keys_for k [] = []
keys_for k (v ∷ vs) = k ∷ keys_for k vs

pub all_keys : Dict ℕ → Store → List String
unfolding keys_for
all_keys [] h = []
all_keys ((k, r) ∷ d) h = keys_for k (h.arrays r) ++ all_keys d h

-- `clone`, which does not copy `Fb`.
pub clone : QueryData → QueryData
clone q = record { refs = q.refs; count = q.count; text = q.text; ignore_case = false }

-- `clear`
pub clear : QueryData → QueryData
clear q = record q { refs = []; count = 0; text = none }

-- The end of `add`, for the array that the key has.
pub add_to : Option ℕ → String → String → Store → QueryData → Store × QueryData
unfolding write allocate
add_to none k v h q = (
  allocate (v ∷ []) h,
  record q { refs = insert k h.next q.refs; count = suc q.count; text = none },
)
add_to (some r) k v h q =
    (write r (h.arrays r ++ v ∷ []) h, record q { count = suc q.count; text = none })

-- `toLowerCase` is `lower`.
module _ (lower : String → String) where
  -- `qg`
  pub key_of : QueryData → String → String
  key_of q k = if q.ignore_case then lower k else k

  -- `add`
  pub add : String → String → Store → QueryData → Store × QueryData
  unfolding key_of add_to
  add k v h q = add_to (lookup (key_of q k) q.refs) (key_of q k) v h q

  -- `Me`
  pub contains : String → QueryData → Bool
  unfolding key_of
  contains k q = has (key_of q k) q.refs

  -- `remove`
  pub remove : String → Store → QueryData → QueryData
  unfolding key_of values_of
  remove k h q =
      let j = key_of q k in
      if has j q.refs
      then record q {
        refs = erase j q.refs;
        count = q.count - length (values_of (lookup j q.refs) h.arrays);
        text = none;
      }
      else q

  -- `set`
  pub set : String → String → Store → QueryData → Store × QueryData
  unfolding key_of values_of allocate
  set k v h q =
      let j = key_of q k in
      let rest =
        if has j q.refs then q.count - length (values_of (lookup j q.refs) h.arrays) else q.count in
      (
        allocate (v ∷ []) h,
        record q { refs = insert j h.next q.refs; count = suc rest; text = none },
      )

  -- `gc` of one key, and `get`, which takes an empty name for none.
  pub get_values : String → Store → QueryData → List String
  unfolding key_of values_of
  get_values k h q = values_of (lookup (key_of q k) q.refs) h.arrays

  pub get : String → String → Store → QueryData → String
  unfolding get_values
  get k default h q =
      let first : String = elim (get_values k h q) [ [] ↦ default | v ∷ vs ↦ v ] in
      if str_eq k "" then default else first
