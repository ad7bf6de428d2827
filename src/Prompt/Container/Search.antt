-- ===== src/Prompt/Container/Search.antt =====
-- Which child the keys highlight.
use demolition_app.Base.{
  ℕ, zero, suc, ◌+◌, ◌-◌, ◌%◌, ◌≡◌, ◌≢◌, ◌<◌, ◌≤◌, refl, true, false, Option, some, none, List, [],
  ◌∷◌, ◌==◌, ltb, leb, if◌then◌else◌, length, arith, Bool-cases, Option-cases, inl, inr, ap, ◌∙◌,
}
use native.Mathlib.Nat.{mod_self, mod-eq_of_lt, mod-lt}
use demolition_app.Prompt.Container.{
  Child, Container, forward, backward, can_highlight, search, start_of, find, first_child,
  last_child, next_child, previous_child,
}

-- What the search is for: a child that can be highlighted, when there is one.
abbrev pub Finds : List Child → Option ℕ → Type 0
Finds cs none = (j : ℕ) → can_highlight cs j ≡ false
Finds cs (some j) = can_highlight cs j ≡ true

-- The rounds until a search comes from i to j among d children.
abbrev forward_rounds : ℕ → ℕ → ℕ → ℕ
forward_rounds d i j = if leb i j then j - i else j + d - i

abbrev backward_rounds : ℕ → ℕ → ℕ → ℕ
backward_rounds d i j = if leb j i then i - j else i + d - j

beyond : (cs : List Child) (j : ℕ) → length cs ≤ j → can_highlight cs j ≡ false
beyond [] j h = refl
beyond (c ∷ cs) zero h = absurd (omega arith)
beyond (c ∷ cs) (suc j) h = beyond cs j (omega arith)

search-some :
    (next : Option ℕ → ℕ → ℕ) (cs : List Child) (n i j : ℕ)
    → search next cs n i ≡ some j
    → can_highlight cs j ≡ true
unfolding search
search-some next cs zero i j h = absurd (ground (arith, h))
search-some next cs (suc n) i j h = elim (Bool-cases (can_highlight cs i)) [
  | inl e ↦ ground (arith, h, e)
  | inr e ↦ search-some next cs n (next (some i) (length cs)) j (ground (arith, h, e))
]

search-none :
    (next : Option ℕ → ℕ → ℕ) (rounds : ℕ → ℕ → ℕ) (cs : List Child)
    (closer : (i j : ℕ)
      → i < length cs
      → j < length cs
      → i ≢ j
      → (next (some i) (length cs) < length cs)
        × (suc (rounds (next (some i) (length cs)) j) ≡ rounds i j))
    (n i j : ℕ)
    → i < length cs
    → j < length cs
    → rounds i j < n
    → search next cs n i ≡ none
    → can_highlight cs j ≡ false
unfolding search
search-none next rounds cs closer zero i j hi hj hr h = absurd (omega arith)
search-none next rounds cs closer (suc n) i j hi hj hr h = elim (Bool-cases (can_highlight cs i)) [
  | inl e ↦ absurd (ground (arith, h, e))
  | inr e ↦ elim (Bool-cases (i == j)) [
    | inl same ↦ let here : j ≡ i = ground (arith, same) in ap (λ k. can_highlight cs k) here ∙ e
    | inr apart ↦
        let i' = next (some i) (length cs) in
        let (hi', less) = closer i j hi hj (ground (arith, apart)) in
        search-none next rounds cs closer n i' j hi' hj (omega (arith, less)) (ground (arith, h, e))
  ]
]

Finds-search :
    (next : Option ℕ → ℕ → ℕ) (rounds : ℕ → ℕ → ℕ) (cs : List Child)
    (closer : (i j : ℕ)
      → i < length cs
      → j < length cs
      → i ≢ j
      → (next (some i) (length cs) < length cs)
        × (suc (rounds (next (some i) (length cs)) j) ≡ rounds i j))
    (bound : (i j : ℕ) → i < length cs → j < length cs → rounds i j ≤ length cs) (i : ℕ)
    → (zero < length cs → i < length cs)
    → Finds cs (search next cs (length cs + 1) i)
Finds-search next rounds cs closer bound i hi =
    elim (Option-cases (search next cs (length cs + 1) i)) [
      | inr (j, e) ↦ rw e (search-some next cs (length cs + 1) i j e)
      | inl e ↦ rw e (λ j. elim (Bool-cases (ltb j (length cs))) [
        | inl h ↦
            search-none next rounds cs closer (length cs + 1) i j (hi (ground (arith, h)))
              (ground (arith, h))
              (omega (arith, bound i j (hi (ground (arith, h))) (ground (arith, h)))) e
        | inr h ↦ beyond cs j (ground (arith, h))
      ])
    ]

forward-some : (i d : ℕ) → i < d → forward (some i) d ≡ (if i + 1 == d then 0 else i + 1)
unfolding forward
forward-some i d h = elim (Bool-cases (i + 1 == d)) [
  | inl e ↦ let last : i + 1 ≡ d = ground (arith, e) in rw e (ap (λ m. m % d) last ∙ mod_self d)
  | inr e ↦ let less : i + 1 < d = ground (arith, e, h) in rw e (mod-eq_of_lt less)
]

backward_closer :
    (d i j : ℕ)
    → i < d
    → j < d
    → i ≢ j
    → (backward (some i) d < d)
      × (suc (backward_rounds d (backward (some i) d) j) ≡ backward_rounds d i j)
unfolding backward
backward_closer d zero j hi hj ne = (ground arith, ground arith)
backward_closer d (suc i) j hi hj ne = (ground arith, ground arith)

forward_closer :
    (d i j : ℕ)
    → i < d
    → j < d
    → i ≢ j
    → (forward (some i) d < d)
      × (suc (forward_rounds d (forward (some i) d) j) ≡ forward_rounds d i j)
forward_closer d i j hi hj ne = rw (forward-some i d hi) (ground arith, ground arith)

-- The highlighted and the opened child are children.
pub record InRange (c : Container) : Type 0 where
  pub highlighted : (i : ℕ) → c.highlighted ≡ some i → i < length c.children
  pub opened : (i : ℕ) → c.opened ≡ some i → i < length c.children

forward-lt :
    (start : Option ℕ) (d : ℕ) → ((i : ℕ) → start ≡ some i → i < d) → zero < d → forward start d < d
unfolding forward
forward-lt none d h z = z
forward-lt (some i) d h z = mod-lt (i + 1) z

backward-lt :
    (start : Option ℕ) (d : ℕ)
    → ((i : ℕ) → start ≡ some i → i < d)
    → zero < d
    → backward start d < d
unfolding backward
backward-lt none d h z = omega (arith, z)
backward-lt (some zero) d h z = omega (arith, z)
backward-lt (some (suc i)) d h z = omega (arith, h (suc i) refl)

Finds-forward :
    (c : Container) (i : ℕ)
    → (zero < length c.children → i < length c.children)
    → Finds c.children (search forward c.children (length c.children + 1) i)
Finds-forward c i h =
    let d = length c.children in
    Finds-search forward (forward_rounds d) c.children (λ i j. forward_closer d i j)
      (λ i j hi hj. ground arith) i h

Finds-backward :
    (c : Container) (i : ℕ)
    → (zero < length c.children → i < length c.children)
    → Finds c.children (search backward c.children (length c.children + 1) i)
Finds-backward c i h =
    let d = length c.children in
    Finds-search backward (backward_rounds d) c.children (λ i j. backward_closer d i j)
      (λ i j hi hj. ground arith) i h

start_of-InRange :
    (c : Container) (start : Option ℕ)
    → InRange c
    → ((i : ℕ) → start ≡ some i → i < length c.children)
    → (i : ℕ) → start_of c start ≡ some i
    → i < length c.children
unfolding start_of
start_of-InRange c none r h = r.opened
start_of-InRange c (some j) r h = h

-- Home, End and the arrow keys highlight a child that can be highlighted, and they highlight none
-- only when no child can be; so the bound of the loop is enough.
Finds-keys :
    (c : Container)
    → InRange c
    → Finds c.children (first_child c)
      × Finds c.children (last_child c)
      × Finds c.children (next_child c)
      × Finds c.children (previous_child c)
unfolding first_child last_child next_child previous_child find start_of
Finds-keys c r =
    let d = length c.children in
    let end = if d == 0 then none else some (d - 1) in
    (
      Finds-forward c (forward (start_of c end) d)
          (forward-lt (start_of c end) d (start_of-InRange c end r (λ i e. ground (arith, e)))),
      Finds-backward c (backward (some 0) d)
          (λ z. backward-lt (some 0) d (λ i e. ground (arith, e, z)) z),
      Finds-forward c (forward (start_of c c.highlighted) d) (
          forward-lt (start_of c c.highlighted) d
            (start_of-InRange c c.highlighted r r.highlighted)),
      Finds-backward c (backward (start_of c c.highlighted) d) (
          backward-lt (start_of c c.highlighted) d
            (start_of-InRange c c.highlighted r r.highlighted)),
    )
