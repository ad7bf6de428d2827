-- ===== src/Prompt/EventTarget/Route.antt =====
-- Which listeners an event reaches, and in which order.
use demolition_app.Base.{
  ℕ, ◌≡◌, refl, ap, inl, inr, subst, sym, ◌∙◌, String, Bool, true, false, ◌&&◌, some, List, [], ◌∷◌,
  ◌++◌, append_assoc, append-nil, All, if◌then◌else◌, Bool-cases, if_cases, arith,
}
use demolition_app.Base.Dict.{has}
use demolition_app.Prompt.ListenerMap.{Listener, ListenerMap, same_bool, list_at, holds}
use demolition_app.Prompt.ListenerMap.Valid.{list_at-absent}
use demolition_app.Prompt.EventTarget.{
  World, ancestors, reverse_onto, call_listener, fire_each, fire, fire_all, dispatch,
}

-- The listeners of a list for a phase, in their order.
pub of_phase : Bool → List Listener → List Listener
of_phase capture [] = []
of_phase capture (l ∷ ls) =
    let rest = of_phase capture ls in if same_bool l.query.capture capture then l ∷ rest else rest

abbrev pub backwards : List Listener → List Listener
backwards [] = []
backwards (l ∷ ls) = backwards ls ++ l ∷ []

backwards-append : (xs ys : List Listener) → backwards (xs ++ ys) ≡ backwards ys ++ backwards xs
backwards-append [] ys = sym (append-nil (backwards ys))
backwards-append (x ∷ xs) ys =
    rw (backwards-append xs ys) (append_assoc (backwards ys) (backwards xs) (x ∷ []))

-- The listeners of a type for a phase, of targets one after the other.
pub on_route : String → Bool → List ℕ → (ℕ → ListenerMap) → List Listener
unfolding of_phase
on_route kind capture [] maps = []
on_route kind capture (t ∷ ts) maps =
    of_phase capture (list_at kind (maps t)) ++ on_route kind capture ts maps

-- The listeners of the type on these targets are in their maps and stay there when they are called.
unfoldable pub Steady : String → List ℕ → (ℕ → ListenerMap) → Type 0
Steady kind ts maps =
    All (λ t. All (λ l. (holds l (maps t) ≡ true) × (l.once ≡ false)) (list_at kind (maps t))) ts

-- A callback that leaves the maps alone and does not stop the event.
pub record IsQuiet (call : Listener → World → World × Bool) : Type 0 where
  pub maps : (l : Listener) (w : World) → (call l w).0.maps ≡ w.maps
  pub parents : (l : Listener) (w : World) → (call l w).0.parents ≡ w.parents
  pub stopped : (l : Listener) (w : World) → (call l w).0.stopped ≡ w.stopped
  pub called : (l : Listener) (w : World) → (call l w).0.called ≡ w.called

-- What a part of a dispatch leaves: the same maps, an event that runs on, and the listeners that
-- were called, before those of earlier parts.
pub record Passes (w : World) (ls : List Listener) (w' : World) : Type 0 where
  pub maps : w'.maps ≡ w.maps
  pub stopped : w'.stopped ≡ w.stopped
  pub called : w'.called ≡ backwards ls ++ w.called

Passes-refl : (w : World) → Passes w [] w
Passes-refl w = record { maps = refl; stopped = refl; called = refl }

Passes-trans :
    {u v w : World} (xs ys : List Listener) → Passes u xs v → Passes v ys w → Passes u (xs ++ ys) w
Passes-trans {u} xs ys p q = record {
  maps = q.maps ∙ p.maps;
  stopped = q.stopped ∙ p.stopped;
  called =
      q.called
      ∙ rw p.called (
          sym (
            ap (λ z. z ++ u.called) (backwards-append xs ys)
            ∙ append_assoc (backwards ys) (backwards xs) u.called));
}

module _ (call : Listener → World → World × Bool) (quiet : IsQuiet call) where
  call_listener-Passes :
      (t : ℕ) (l : Listener) (w : World)
      → l.once ≡ false
      → Passes w (l ∷ []) (call_listener call t l w).0
  unfolding call_listener
  call_listener-Passes t l w e =
      if_cases (λ v. Passes w (l ∷ []) (call l (record v { called = l ∷ v.called })).0) l.once _ _
        (λ o. absurd (ground (arith, o, e)))
        (λ o. record {
          maps = quiet.maps l _;
          stopped = quiet.stopped l _;
          called = quiet.called l _;
        })

  fire_each-Passes :
      (t : ℕ) (capture : Bool) (ls : List Listener) (w : World)
      → All (λ l. (holds l (w.maps t) ≡ true) × (l.once ≡ false)) ls
      → Passes w (of_phase capture ls) (fire_each call t capture ls w).0
  unfolding fire_each of_phase
  fire_each-Passes t capture [] w s = Passes-refl w
  fire_each-Passes t capture (l ∷ ls) w ((h, o), s) =
      elim (Bool-cases (same_bool l.query.capture capture)) [
        | inl e ↦
            rw (h, e)
              (Passes-trans (l ∷ []) (of_phase capture ls) (call_listener-Passes t l w o) (
                fire_each-Passes t capture ls (call_listener call t l w).0 (
                  subst (λ m. All (λ l. (holds l (m t) ≡ true) × (l.once ≡ false)) ls)
                    (sym (call_listener-Passes t l w o).maps) s)))
        | inr e ↦ rw (h, e) (fire_each-Passes t capture ls w s)
      ]

  fire-Passes :
      (kind : String) (capture : Bool) (t : ℕ) (w : World)
      → All (λ l. (holds l (w.maps t) ≡ true) × (l.once ≡ false)) (list_at kind (w.maps t))
      → Passes w (of_phase capture (list_at kind (w.maps t))) (fire call kind capture t w).0
  unfolding fire of_phase
  fire-Passes kind capture t w s = elim (Bool-cases (has kind (w.maps t).lists)) [
    | inl h ↦ rw h (fire_each-Passes t capture _ w s)
    | inr h ↦ rw h (rw (list_at-absent kind (w.maps t) h) (Passes-refl w))
  ]

  fire_all-Passes :
      (kind : String) (capture : Bool) (ts : List ℕ) (w : World)
      → w.stopped ≡ false
      → Steady kind ts w.maps
      → Passes w (on_route kind capture ts w.maps) (fire_all call kind capture ts w).0
  unfolding fire_all on_route Steady
  fire_all-Passes kind capture [] w n s = Passes-refl w
  fire_all-Passes kind capture (t ∷ ts) w n (s, ss) =
      let p = fire-Passes kind capture t w s in
      let w' = (fire call kind capture t w).0 in
      if_cases (λ (r : World × Bool). Passes w (on_route kind capture (t ∷ ts) w.maps) r.0)
        w.stopped _ _ (λ o. absurd (ground (arith, o, n)))
        (λ o.
          Passes-trans (of_phase capture (list_at kind (w.maps t)))
            (on_route kind capture ts w.maps) p
            (subst
              (λ m. Passes w' (on_route kind capture ts m) (fire_all call kind capture ts w').0)
              p.maps
              (fire_all-Passes kind capture ts w' (p.stopped ∙ n)
                (subst (Steady kind ts) (sym p.maps) ss))))

-- The listeners that an event reaches: those for the capturing phase from the outermost ancestor to
-- the target, then the others from the target to the outermost ancestor.
pub route : String → ℕ → List ℕ → (ℕ → ListenerMap) → List Listener
unfolding on_route
route kind t c maps =
    on_route kind true (reverse_onto c []) maps
    ++ on_route kind true (t ∷ []) maps
    ++ on_route kind false (t ∷ []) maps
    ++ on_route kind false c maps

All-reverse_onto :
    (P : ℕ → Type 0) (xs ys : List ℕ) → All P xs → All P ys → All P (reverse_onto xs ys)
All-reverse_onto P [] ys p q = q
All-reverse_onto P (x ∷ xs) ys (h, p) q = All-reverse_onto P xs (x ∷ ys) p (h, q)

-- When the callbacks leave the maps alone and do not stop the event, and no listener on the way is
-- called only once, an event with the ancestors c calls first the listeners for the capturing phase
-- from the outermost ancestor to the target, then the others from the target outwards, each once,
-- and no other.
pub dispatch-route :
    (call : Listener → World → World × Bool) (kind : String) (t : ℕ) (c : List ℕ) (w : World)
    → IsQuiet call
    → ancestors (w.parents t) w.parents 998 ≡ some c
    → Steady kind (t ∷ c) w.maps
    → (w' : World) × (b : Bool) × (dispatch call kind t w ≡ some (w', b))
      × (w'.maps ≡ w.maps)
      × (w'.called ≡ backwards (route kind t c w.maps) ++ w.called)
unfolding dispatch route Steady
dispatch-route call kind t c w quiet e (s, ss) =
    let w₀ = record w { stopped = false; return_value = true } in
    let down = fire_all call kind true (reverse_onto c []) w₀ in
    let at = fire_all call kind true (t ∷ []) down.0 in
    let back = fire_all call kind false (t ∷ []) at.0 in
    let up = fire_all call kind false c back.0 in
    let p₁ =
      fire_all-Passes call quiet kind true (reverse_onto c []) w₀ refl
        (All-reverse_onto _ c [] ss tt) in
    let p₂ = passes true (t ∷ []) down.0 _ p₁ (s, tt) in
    let p₃ = passes false (t ∷ []) at.0 _ p₂ (s, tt) in
    let p₄ = passes false c back.0 _ p₃ ss in
    (up.0, down.1 && at.1 && back.1 && up.1, rw e refl, p₄.maps, p₄.called)
  where
    passes :
        (capture : Bool) (ts : List ℕ) (v : World) (ls : List Listener)
        → Passes (record w { stopped = false; return_value = true }) ls v
        → Steady kind ts w.maps
        → Passes
            (record w { stopped = false; return_value = true })
            (ls ++ on_route kind capture ts w.maps)
            (fire_all call kind capture ts v).0
    passes capture ts v ls p st = Passes-trans ls (on_route kind capture ts w.maps) p (
        subst (λ m. Passes v (on_route kind capture ts m) (fire_all call kind capture ts v).0)
          p.maps
          (fire_all-Passes call quiet kind capture ts v p.stopped
            (subst (Steady kind ts) (sym p.maps) st)))
