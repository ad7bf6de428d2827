-- ===== src/Prompt/Container/Positions.antt =====
-- The highlighted child when children come, move and go.
use demolition_app.Base.{
  ℕ, zero, suc, ◌≡◌, ◌<◌, ◌≤◌, refl, ◌&&◌, ◌||◌, Option, some, none, List, [], ◌∷◌, ◌==◌, ltb,
  if◌then◌else◌, length, get_elem?, arith, ap, ◌∙◌,
}
use demolition_app.Prompt.Container.{
  Child, Container, index_of, insert_at, erase_at, moved_index, add_new, move_child, removed_index,
  remove_at, remove_child,
}

module _ {ℓ} {A : Type ℓ} where
  insert_at-before :
      (x : A) (xs : List A) (b i : ℕ)
      → i < b
      → i < length xs
      → get_elem? (insert_at b x xs) i ≡ get_elem? xs i
  unfolding insert_at
  insert_at-before x [] b i h l = absurd (omega arith)
  insert_at-before x (y ∷ ys) zero i h l = absurd (omega arith)
  insert_at-before x (y ∷ ys) (suc b) zero h l = refl
  insert_at-before x (y ∷ ys) (suc b) (suc i) h l =
      insert_at-before x ys b i (omega arith) (omega arith)

  insert_at-here :
      (x : A) (xs : List A) (b : ℕ) → b ≤ length xs → get_elem? (insert_at b x xs) b ≡ some x
  unfolding insert_at
  insert_at-here x [] zero l = refl
  insert_at-here x [] (suc b) l = absurd (omega arith)
  insert_at-here x (y ∷ ys) zero l = refl
  insert_at-here x (y ∷ ys) (suc b) l = insert_at-here x ys b (omega arith)

  insert_at-end :
      (x : A) (xs : List A) (b : ℕ)
      → length xs ≤ b
      → get_elem? (insert_at b x xs) (length xs) ≡ some x
  unfolding insert_at
  insert_at-end x [] b l = refl
  insert_at-end x (y ∷ ys) zero l = absurd (omega arith)
  insert_at-end x (y ∷ ys) (suc b) l = insert_at-end x ys b (omega arith)

  insert_at-after :
      (x : A) (xs : List A) (b i : ℕ)
      → b ≤ i
      → get_elem? (insert_at b x xs) (suc i) ≡ get_elem? xs i
  unfolding insert_at
  insert_at-after x [] b i h = refl
  insert_at-after x (y ∷ ys) zero i h = refl
  insert_at-after x (y ∷ ys) (suc b) zero h = absurd (omega arith)
  insert_at-after x (y ∷ ys) (suc b) (suc i) h = insert_at-after x ys b i (omega arith)

  length-insert_at : (x : A) (xs : List A) (b : ℕ) → length (insert_at b x xs) ≡ suc (length xs)
  unfolding insert_at
  length-insert_at x [] b = refl
  length-insert_at x (y ∷ ys) zero = refl
  length-insert_at x (y ∷ ys) (suc b) = ap suc (length-insert_at x ys b)

  erase_at-before : (xs : List A) (d i : ℕ) → i < d → get_elem? (erase_at d xs) i ≡ get_elem? xs i
  unfolding erase_at
  erase_at-before [] d i h = refl
  erase_at-before (y ∷ ys) zero i h = absurd (omega arith)
  erase_at-before (y ∷ ys) (suc d) zero h = refl
  erase_at-before (y ∷ ys) (suc d) (suc i) h = erase_at-before ys d i (omega arith)

  erase_at-after :
      (xs : List A) (d i : ℕ) → d ≤ i → get_elem? (erase_at d xs) i ≡ get_elem? xs (suc i)
  unfolding erase_at
  erase_at-after [] d i h = refl
  erase_at-after (y ∷ ys) zero i h = refl
  erase_at-after (y ∷ ys) (suc d) zero h = absurd (omega arith)
  erase_at-after (y ∷ ys) (suc d) (suc i) h = erase_at-after ys d i (omega arith)

  length-erase_at : (xs : List A) (d : ℕ) → d < length xs → suc (length (erase_at d xs)) ≡ length xs
  unfolding erase_at
  length-erase_at [] d h = absurd (omega arith)
  length-erase_at (y ∷ ys) zero h = refl
  length-erase_at (y ∷ ys) (suc d) h = ap suc (length-erase_at ys d (omega arith))

-- The child at an optional index.
abbrev pub child_at : List Child → Option ℕ → Option Child
child_at cs none = none
child_at cs (some i) = get_elem? cs i

-- A new child leaves the highlighted child highlighted, wherever it is put.
add_new-highlighted :
    (child : Child) (b v : ℕ) (c : Container)
    → c.highlighted ≡ some v
    → v < length c.children
    → b ≤ length c.children
    → let c' = add_new child b c in child_at c'.children c'.highlighted ≡ get_elem? c.children v
unfolding add_new moved_index
add_new-highlighted child b v c e l h = rw e (
    ground (
      arith,
      length-insert_at child c.children b,
      insert_at-before child c.children b v,
      insert_at-after child c.children b v,
    ))

moved_at :
    (child : Child) (cs : List Child) (d b v : ℕ)
    → d < length cs
    → v < length cs
    → b ≤ length cs
    → let ys = erase_at d cs in
      child_at (insert_at b child ys) (moved_index (suc (length ys)) d b (some v))
      ≡ (if d == v || ltb d v && b == v then some child else get_elem? cs v)
unfolding moved_index
moved_at child cs d b zero ld lv lb =
    let ys = erase_at d cs in
    ground (
      arith,
      length-erase_at cs d ld,
      insert_at-here child ys b,
      insert_at-end child ys b,
      insert_at-before child ys b zero,
      insert_at-after child ys b zero,
      erase_at-before cs d zero,
    )
moved_at child cs d b (suc u) ld lv lb =
    let ys = erase_at d cs in
    ground (
      arith,
      length-erase_at cs d ld,
      insert_at-here child ys b,
      insert_at-end child ys b,
      insert_at-before child ys b u,
      insert_at-before child ys b (suc u),
      insert_at-after child ys b u,
      insert_at-after child ys b (suc u),
      erase_at-before cs d (suc u),
      erase_at-after cs d u,
    )

-- When the child at d moves to b, the highlighted child stays highlighted, but when it stands at b
-- and the other child comes from before it: then that child takes the highlight.
pub move_child-highlighted :
    (child : Child) (d b v : ℕ) (c : Container)
    → c.highlighted ≡ some v
    → get_elem? c.children d ≡ some child
    → d < length c.children
    → v < length c.children
    → b ≤ length c.children
    → let c' = move_child child d b c in
      child_at c'.children c'.highlighted
      ≡ (if ltb d v && b == v then some child else get_elem? c.children v)
unfolding move_child
move_child-highlighted child d b v c e ec ld lv lb =
    rw (e, length-insert_at child (erase_at d c.children) b)
      (moved_at child c.children d b v ld lv lb ∙ ground (arith, ec))

-- The removal of a child leaves the highlighted child highlighted, and none when it was that one.
remove_child-highlighted :
    (id d v : ℕ) (c : Container)
    → c.highlighted ≡ some v
    → index_of id c.children ≡ some d
    → let c' = remove_at d c in
      (remove_child id c ≡ some c')
      × (child_at c'.children c'.highlighted ≡ (if d == v then none else get_elem? c.children v))
unfolding remove_child remove_at removed_index
remove_child-highlighted id d zero c e ed =
    (rw (remove_child, ed) refl, rw e (ground (arith, erase_at-before c.children d zero)))
remove_child-highlighted id d (suc u) c e ed = (
  rw (remove_child, ed) refl,
  rw e (ground (arith, erase_at-before c.children d (suc u), erase_at-after c.children d u)),
)
