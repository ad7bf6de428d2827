-- ===== src/Survey/Elision/Limits.antt =====
-- How much of the page stays readable.
use demolition_app.Base.{
  ℕ, zero, suc, ◌+◌, ◌≡◌, refl, sym, subst, ◌⊎◌, inl, inr, Bool, true, false, not, ◌&&◌, ◌||◌,
  if◌then◌else◌, if_cases, Bool-cases, List, [], ◌∷◌, arith,
}
use demolition_app.Survey.Elision.{
  Node, Options, Allowance, starts_block, characters, images, total, exceeds, search, limits, cut,
}

-- What the first nodes add.
pub seen : (Node → ℕ) → ℕ → List Node → ℕ
seen f zero ns = 0
seen f (suc c) [] = 0
seen f (suc c) (n ∷ ns) = f n + seen f c ns

-- Neither the characters nor the images are too many.
abbrev Fits : Allowance → ℕ → ℕ → Type 0
Fits m g h =
    exceeds m.all_characters m.max_characters g || exceeds m.all_images m.max_images h ≡ false

-- The place is the start, the last block so far, or one before which the nodes fit.
abbrev Ends : Allowance → ℕ → ℕ → ℕ → ℕ → List Node → ℕ → Type 0
Ends m g h k i ns r =
    (r ≡ 0)
    ⊎ ((r ≡ k) ⊎ ((j : ℕ) × (r ≡ i + j) × Fits m (g + seen characters j ns) (h + seen images j ns)))

Fits-eq : (m : Allowance) {g g' h h' : ℕ} → g ≡ g' → h ≡ h' → Fits m g h → Fits m g' h'
Fits-eq m {g} {g'} {h} {h'} p q f = subst (λ x. Fits m x h') p (subst (λ y. Fits m g y) q f)

block-Ends :
    (b : Bool) (m : Allowance) (g h k i : ℕ) (ns : List Node)
    → Fits m g h
    → Ends m g h k i ns (if b then i else k)
unfolding seen
block-Ends true m g h k i ns f = inr (inr (0, omega arith, Fits-eq m (omega arith) (omega arith) f))
block-Ends false m g h k i ns f = inr (inl refl)

-- A node after which the loop goes on fits.
next-Fits :
    (m : Allowance) (g h : ℕ) (n : Node)
    → Fits m g h
    → not n.left_out
        && (exceeds m.all_characters m.max_characters (g + characters n)
            || exceeds m.all_images m.max_images (h + images n))
      ≡ false
    → Fits m (g + characters n) (h + images n)
unfolding characters images
next-Fits m g h n f e = elim (Bool-cases n.left_out) [
  | inl o ↦ rw o (Fits-eq m (omega arith) (omega arith) f)
  | inr o ↦ ground (arith, o, e)
]

-- What is so for the nodes after one is so with it.
later-Ends :
    (m : Allowance) (n : Node) (ns : List Node) (g h k i : ℕ)
    → Fits m g h
    → (r : ℕ)
    → Ends m (g + characters n) (h + images n) (if starts_block n then i else k) (suc i) ns r
    → Ends m g h k i (n ∷ ns) r
unfolding seen
later-Ends m n ns g h k i f r (inl z) = inl z
later-Ends m n ns g h k i f r (inr (inl q)) =
    subst (Ends m g h k i (n ∷ ns)) (sym q) (block-Ends (starts_block n) m g h k i (n ∷ ns) f)
later-Ends m n ns g h k i f r (inr (inr (j, q, s))) =
    inr (inr (suc j, omega (arith, q), Fits-eq m (omega arith) (omega arith) s))

search-Ends :
    (m : Allowance) (ns : List Node) (g h k i : ℕ)
    → Fits m g h
    → Ends m g h k i ns (search m g h k i ns)
unfolding search
search-Ends m [] g h k i f = inl refl
search-Ends m (n ∷ ns) g h k i f =
    if_cases (Ends m g h k i (n ∷ ns))
      (not n.left_out
        && (exceeds m.all_characters m.max_characters (g + characters n)
            || exceeds m.all_images m.max_images (h + images n)))
      _ _ (λ _. block-Ends (starts_block n) m g h k i (n ∷ ns) f)
      (λ e. later-Ends m n ns g h k i f _ (search-Ends m ns _ _ _ (suc i) (next-Fits m g h n f e)))

nothing-Fits : (m : Allowance) → Fits m 0 0
unfolding exceeds
nothing-Fits m = ground arith

Ends-Fits :
    (m : Allowance) (ns : List Node) (c : ℕ)
    → Ends m 0 0 0 0 ns c
    → Fits m (seen characters c ns) (seen images c ns)
unfolding seen
Ends-Fits m ns c e = elim e [
  | inl z ↦ from_place 0 z (nothing-Fits m)
  | inr (inl z) ↦ from_place 0 z (nothing-Fits m)
  | inr (inr (j, q, s)) ↦ from_place j (omega (arith, q)) (Fits-eq m (omega arith) (omega arith) s)
]
  where
    from_place :
        (j : ℕ)
        → c ≡ j
        → Fits m (seen characters j ns) (seen images j ns)
        → Fits m (seen characters c ns) (seen images c ns)
    from_place j q s = subst (λ x. Fits m (seen characters x ns) (seen images x ns)) (sym q) s

-- However the page is built, before the place where it is cut there are at most as many characters
-- and images as the limits allow, unless the page has none at all.
cut-fits :
    (share : ℕ → ℕ → ℕ) (o : Options) (ns : List Node)
    → exceeds
          (total characters ns)
          (limits share o ns).max_characters
          (seen characters (cut share o ns) ns)
        || exceeds
            (total images ns)
            (limits share o ns).max_images
            (seen images (cut share o ns) ns)
      ≡ false
unfolding cut limits
cut-fits share o ns =
    let m : Allowance = limits share o ns in
    Ends-Fits m ns (cut share o ns) (search-Ends m ns 0 0 0 0 (nothing-Fits m))
