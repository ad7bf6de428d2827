-- ===== src/Tags/Permissions/Cached.antt =====
-- What is kept of the checks changes none of them.
use demolition_app.Base.{
  ◌≡◌, refl, ap, sym, ◌∙◌, Bool, if◌then◌else◌, String, str_eq, eq_iff, Option, none, some, List,
  [], ◌∷◌, map, All, Bool-cases, inl, inr, subst,
}
use demolition_app.Base.Dict.{Dict, lookup, insert, lookup-insert}
use demolition_app.Tags.Permissions.{Lists, is_denied, of_cache, check, check_all}

module _ (zone : String → Bool) (l : Lists) (needs_of : String → List String) where
  none-some : {b : Bool} → none ≡ some b → ⊥
  none-some e = cc (e)

  -- What is kept is right.
  abbrev Right : Dict Bool → Type 0
  Right cache =
      (name : String) (b : Bool)
      → lookup name cache ≡ some b
      → b ≡ is_denied zone l name (needs_of name)

  some_injective : {a b : Bool} → some a ≡ some b → b ≡ a
  some_injective e = cc (e)

  empty-Right : Right []
  unfolding lookup
  empty-Right name b e = absurd (none-some e)

  insert-Right :
      (name : String) (cache : Dict Bool)
      → Right cache
      → Right (insert name (is_denied zone l name (needs_of name)) cache)
  insert-Right name cache r other b e =
      let d = is_denied zone l name (needs_of name) in
      let f : (if str_eq name other then some d else lookup other cache) ≡ some b =
        sym (lookup-insert name other d cache) ∙ e in
      elim (Bool-cases (str_eq name other)) [
        | inl t ↦
            subst (λ n. b ≡ is_denied zone l n (needs_of n)) ((eq_iff name other).0 t)
              (some_injective (sym (ap (λ t. if t then some d else lookup other cache) t) ∙ f))
        | inr t ↦ r other b (sym (ap (λ t. if t then some d else lookup other cache) t) ∙ f)
      ]

  -- A tag whose needs are those of its kind.
  abbrev pub OfKind : String × List String → Type 0
  OfKind t = t.1 ≡ needs_of t.0

  abbrev pub denied : String × List String → Bool
  denied t = is_denied zone l t.0 t.1

  checked :
      (o : Option Bool) (name : String) (needs : List String) (cache : Dict Bool)
      → lookup name cache ≡ o
      → needs ≡ needs_of name
      → Right cache
      → ((of_cache zone l o name needs cache).denied ≡ is_denied zone l name needs)
        × Right (of_cache zone l o name needs cache).cache
  unfolding of_cache
  checked (some b) name needs cache e k r =
      (subst (λ ns. b ≡ is_denied zone l name ns) (sym k) (r name b e), r)
  checked none name needs cache e k r = (
    refl,
    subst (λ ns. Right (insert name (is_denied zone l name ns) cache)) (sym k)
        (insert-Right name cache r),
  )

  all_checked :
      (ts : List (String × List String)) (cache : Dict Bool)
      → All OfKind ts
      → Right cache
      → check_all zone l ts cache ≡ map denied ts
  unfolding check_all check
  all_checked [] cache h r = refl
  all_checked ((name, needs) ∷ ts) cache (k, h) r =
      let c = checked (lookup name cache) name needs cache refl k r in
      let next = (check zone l name needs cache).cache in
      ap (λ (b : Bool). b ∷ check_all zone l ts next) c.0
      ∙ ap (denied (name, needs) ∷◌) (all_checked ts next h c.1)

  -- Where all tags of a kind have the same needs, what is said of each of several tags is what is said of it
  -- alone, however often a kind was looked up before.
  pub check_all-map :
      (ts : List (String × List String)) → All OfKind ts → check_all zone l ts [] ≡ map denied ts
  check_all-map ts h = all_checked ts [] h empty-Right
