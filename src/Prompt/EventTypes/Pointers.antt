-- ===== src/Prompt/EventTypes/Pointers.antt =====
-- The types of pointer events among all types.
use demolition_app.Base.{
  ℕ, zero, suc, ◌≡◌, refl, String, some, List, [], ◌∷◌, Occurs, All, get_elem?, arith, if_elim,
  if◌then◌else◌, inl, inr,
}
use demolition_app.Prompt.EventTypes.{Browser, event_types, mouse_types}

abbrev pub types_of : List (String × String) → List String
types_of [] = []
types_of ((name, type) ∷ rest) = type ∷ types_of rest

Occurs-get_elem? : (xs : List String) (i : ℕ) (x : String) → get_elem? xs i ≡ some x → Occurs x xs
Occurs-get_elem? [] i x e = absurd (ground (arith, e))
Occurs-get_elem? (y ∷ xs) zero x e = inl (ground (arith, e))
Occurs-get_elem? (y ∷ xs) (suc i) x e = inr (Occurs-get_elem? xs i x e)

module _ (lower : String → String) where
  listed :
      (w : Browser) (i j k : ℕ) {x y z : String}
      → get_elem? (types_of (event_types lower w)) i ≡ some x
      → get_elem? (types_of (event_types lower w)) j ≡ some y
      → get_elem? (types_of (event_types lower w)) k ≡ some z
      → Occurs
          (if w.pointer then x else if w.ms_pointer then y else z)
          (types_of (event_types lower w))
  listed w i j k {x} {y} {z} ex ey ez =
      let types = types_of (event_types lower w) in
      if_elim (λ t. Occurs t types) w.pointer x (if w.ms_pointer then y else z)
        (Occurs-get_elem? types i x ex)
        (if_elim (λ t. Occurs t types) w.ms_pointer y z (Occurs-get_elem? types j y ey)
          (Occurs-get_elem? types k z ez))

  -- In every browser the types that stand for the mouse are among the types of all events.
  pub mouse_types-event_types :
      (w : Browser)
      → All (λ (e : String × String). Occurs e.1 (types_of (event_types lower w))) (mouse_types w)
  unfolding event_types mouse_types
  mouse_types-event_types w = (
    listed w 106 125 3 refl refl refl,
    (
      listed w 107 132 4 refl refl refl,
      (
        listed w 108 124 10 refl refl refl,
        (
          listed w 109 129 7 refl refl refl,
          (
            listed w 110 131 5 refl refl refl,
            (
              listed w 111 130 6 refl refl refl,
              (listed w 112 126 8 refl refl refl, (listed w 113 128 9 refl refl refl, tt)),
            ),
          ),
        ),
      ),
    ),
  )
