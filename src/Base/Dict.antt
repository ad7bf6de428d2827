-- ===== src/Base/Dict.antt =====
-- An object used as a dictionary: an association list with texts as keys.
use Prim.Native.Nat.{suc}
use Prim.Native.String.{String}
use mathlib.Core.Path.{◌≡◌, refl, ap}
use mathlib.Core.Logic.{◌⊎◌, ◌↔◌}
use mathlib.Core.Bool.{Bool, true, false, ◌||◌}
use mathlib.Core.Option.{Option, none, some}
use mathlib.Core.List.{List, [], ◌∷◌}
use native.Mathlib.Omega.{arith}
use text.Mathlib.Text.{◌==◌ as str_eq}
use text.Mathlib.TextEquality.{eq_iff}
use demolition_app.Base.Tests.{if◌then◌else◌, Bool-cases}
use demolition_app.Base.Lists.{length, Occurs}

abbrev pub Dict {ℓ} : Type ℓ → Type ℓ
Dict V = List (String × V)

pub str_eq_refl : (s : String) → str_eq s s ≡ true
str_eq_refl s = (eq_iff s s).1 refl

-- The keys differ from each other.
unfoldable pub DistinctTexts : List String → Type 0
DistinctTexts [] = Unit
DistinctTexts (k ∷ ks) = (¬ Occurs k ks) × DistinctTexts ks

module _ {ℓ} {V : Type ℓ} where
  unfoldable pub lookup : String → Dict V → Option V
  lookup k [] = none
  lookup k ((j, v) ∷ d) = if str_eq j k then some v else lookup k d

  -- `hasOwnProperty`
  unfoldable pub has : String → Dict V → Bool
  has k [] = false
  has k ((j, v) ∷ d) = str_eq j k || has k d

  unfoldable pub insert : String → V → Dict V → Dict V
  insert k v [] = (k, v) ∷ []
  insert k v ((j, w) ∷ d) = if str_eq j k then (k, v) ∷ d else (j, w) ∷ insert k v d

  -- `delete d[k]`
  unfoldable pub erase : String → Dict V → Dict V
  erase k [] = []
  erase k ((j, w) ∷ d) = let rest = erase k d in if str_eq j k then rest else (j, w) ∷ rest

  abbrev pub dict_keys : Dict V → List String
  dict_keys [] = []
  dict_keys ((k, v) ∷ d) = k ∷ dict_keys d

  pub length-dict_keys : (d : Dict V) → length (dict_keys d) ≡ length d
  length-dict_keys [] = refl
  length-dict_keys ((k, v) ∷ d) = ap suc (length-dict_keys d)

  pub lookup-insert :
      (k j : String) (v : V) (d : Dict V)
      → lookup j (insert k v d) ≡ (if str_eq k j then some v else lookup j d)
  unfolding lookup insert
  lookup-insert k j v [] = refl
  lookup-insert k j v ((i, w) ∷ d) =
      ground (arith, eq_iff k j, eq_iff i k, eq_iff i j, lookup-insert k j v d)

  pub lookup-erase :
      (k j : String) (d : Dict V) → lookup j (erase k d) ≡ (if str_eq k j then none else lookup j d)
  unfolding lookup erase
  lookup-erase k j [] = ground arith
  lookup-erase k j ((i, w) ∷ d) =
      ground (arith, eq_iff k j, eq_iff i k, eq_iff i j, lookup-erase k j d)

  pub has-insert :
      (k j : String) (v : V) (d : Dict V) → has j (insert k v d) ≡ (str_eq k j || has j d)
  unfolding has insert
  has-insert k j v [] = refl
  has-insert k j v ((i, w) ∷ d) =
      ground (arith, eq_iff k j, eq_iff i k, eq_iff i j, has-insert k j v d)

  pub has-erase :
      (k j : String) (d : Dict V) → has j (erase k d) ≡ (if str_eq k j then false else has j d)
  unfolding has erase
  has-erase k j [] = ground arith
  has-erase k j ((i, w) ∷ d) = ground (arith, eq_iff k j, eq_iff i k, eq_iff i j, has-erase k j d)

  pub has_iff : (k : String) (d : Dict V) → (has k d ≡ true) ↔ Occurs k (dict_keys d)
  unfolding has
  has_iff k [] = ground arith
  has_iff k ((j, v) ∷ d) = ground (arith, eq_iff j k, has_iff k d)

  pub lookup-has :
      (k : String) (d : Dict V) → has k d ≡ (elim (lookup k d) [ none ↦ false | some _ ↦ true ])
  unfolding has lookup
  lookup-has k [] = refl
  lookup-has k ((j, v) ∷ d) = ground (arith, lookup-has k d)

  -- An insertion adds one entry when the key is new, and none otherwise.
  pub length-insert :
      (k : String) (v : V) (d : Dict V)
      → length (insert k v d) ≡ (if has k d then length d else suc (length d))
  unfolding has insert
  length-insert k v [] = refl
  length-insert k v ((j, w) ∷ d) = ground (arith, length-insert k v d)

  dict_keys-insert :
      (k j : String) (v : V) (d : Dict V)
      → Occurs j (dict_keys (insert k v d))
      → (k ≡ j) ⊎ Occurs j (dict_keys d)
  unfolding insert
  dict_keys-insert k j v [] h = h
  dict_keys-insert k j v ((i, w) ∷ d) h = ground (arith, eq_iff i k, dict_keys-insert k j v d)

  pub insert-distinct :
      (k : String) (v : V) (d : Dict V)
      → DistinctTexts (dict_keys d)
      → DistinctTexts (dict_keys (insert k v d))
  unfolding insert DistinctTexts
  insert-distinct k v [] h = (λ e. e, tt)
  insert-distinct k v ((i, w) ∷ d) h =
      ground (arith, eq_iff i k, insert-distinct k v d, dict_keys-insert k i v d)

  dict_keys-erase :
      (k j : String) (d : Dict V) → Occurs j (dict_keys (erase k d)) → Occurs j (dict_keys d)
  unfolding erase
  dict_keys-erase k j [] h = h
  dict_keys-erase k j ((i, w) ∷ d) h = ground (arith, dict_keys-erase k j d)

  pub erase-distinct :
      (k : String) (d : Dict V)
      → DistinctTexts (dict_keys d)
      → DistinctTexts (dict_keys (erase k d))
  unfolding erase DistinctTexts
  erase-distinct k [] h = h
  erase-distinct k ((i, w) ∷ d) h = ground (arith, erase-distinct k d, dict_keys-erase k i d)

  pub erase_absent : (k : String) (d : Dict V) → has k d ≡ false → erase k d ≡ d
  unfolding erase has
  erase_absent k [] h = refl
  erase_absent k ((i, w) ∷ d) h = ground (arith, erase_absent k d)

  -- A deletion takes one entry away when the keys are distinct and the key is there.
  pub length-erase :
      (k : String) (d : Dict V)
      → DistinctTexts (dict_keys d)
      → has k d ≡ true
      → suc (length (erase k d)) ≡ length d
  unfolding erase has DistinctTexts
  length-erase k [] h e = cc
  length-erase k ((i, w) ∷ d) h e =
      ground
        (arith, eq_iff i k, has_iff k d, erase_absent k d, length-erase k d, Bool-cases (has k d))

-- `cb`: the list holds the text.
abbrev pub has_text : List String → String → Bool
has_text [] s = false
has_text (t ∷ ts) s = str_eq t s || has_text ts s
