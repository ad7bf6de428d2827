-- ===== src/Prompt/Ratings/Shown.antt =====
-- What a rating is and what its stars show.
use demolition_app.Base.{
  ℕ, zero, suc, ◌<◌, ◌≡◌, ◌⊎◌, inl, inr, refl, Bool, true, false, not, ◌&&◌, Option, some, none,
  List, [], ◌∷◌, if_elim, Bool-cases, leb, arith,
}
use demolition_app.Base.Int.{ℤ, pos, negsuc, int_eqb}
use demolition_app.Prompt.Ratings.{
  Ratings, stars_from, draw, last_index, clamp, set_index, reset_highlight, set_enabled,
  on_mouse_over, on_mouse_out, on_click, key_target, on_key_down, new_ratings,
}

pub data Input : Type 0 where
  call_set_index : ℤ → Input
  call_set_enabled : Bool → Input
  mouse_over : Option ℕ → Input
  mouse_out : Option Bool → Input
  click : Option ℕ → Input
  key_down : ℕ → Input

-- One call or event.
pub step : Input → Ratings → Ratings
step (call_set_index a) r = set_index a r
step (call_set_enabled b) r = set_enabled b r
step (mouse_over i) r = on_mouse_over i r
step (mouse_out e) r = on_mouse_out e r
step (click i) r = on_click i r
step (key_down code) r = on_key_down code r

pub run : List Input → Ratings → Ratings
run [] r = r
run (i ∷ is) r = run is (step i r)

-- From -1 to the last index.
unfoldable pub InRange : ℕ → ℤ → Type 0
InRange count (pos i) = i < count
InRange count (negsuc k) = k ≡ 0

-- The stars are drawn up to the value or up to the star under the pointer, and a control that is
-- disabled shows no star as enabled.
pub record Shows (r : Ratings) : Type 0 where
  pub in_range : InRange r.count r.value
  pub box : (r.select_box ≡ none) ⊎ (r.select_box ≡ some r.value)
  pub level : ℤ
  pub shade : Bool
  pub drawn : r.stars ≡ stars_from r.count shade level 0 r.count
  pub of_state : (level ≡ r.value) ⊎ (level ≡ r.highlighted)
  pub disabled : r.enabled ≡ false → shade ≡ false

leb-zero : (k : ℕ) → leb 0 k ≡ true
leb-zero k = ground arith

leb-suc_zero : (k : ℕ) → leb (suc k) 0 ≡ false
leb-suc_zero k = ground arith

pub clamp-InRange : (count : ℕ) (a : ℤ) → InRange count (clamp count a)
unfolding clamp last_index InRange
clamp-InRange zero (pos i) = refl
clamp-InRange zero (negsuc zero) = refl
clamp-InRange zero (negsuc (suc k)) = rw (leb-zero (suc k)) (rw (leb-suc_zero k) refl)
clamp-InRange (suc n) (pos i) = elim (Bool-cases (leb i n)) [
  | inl e ↦ rw e (ground (arith, e))
  | inr e ↦ rw e (omega arith)
]
clamp-InRange (suc n) (negsuc zero) = refl
clamp-InRange (suc n) (negsuc (suc k)) = rw (leb-suc_zero k) refl

box_of :
    (o : Option ℤ) (a : ℤ)
    → (elim o [ none ↦ none | some _ ↦ some a ] ≡ none)
      ⊎ (elim o [ none ↦ none | some _ ↦ some a ] ≡ some a)
box_of none a = inl refl
box_of (some b) a = inr refl

set_index-Shows : (a : ℤ) (r : Ratings) → Shows r → Shows (set_index a r)
unfolding set_index draw
set_index-Shows a r s = if_elim Shows (int_eqb (clamp r.count a) r.value) _ _ s (record {
  in_range = clamp-InRange r.count a;
  box = box_of r.select_box (clamp r.count a);
  level = clamp r.count a;
  shade = r.enabled;
  drawn = refl;
  of_state = inl refl;
  disabled = λ e. e;
})

reset_highlight-Shows :
    (r : Ratings)
    → InRange r.count r.value
    → (r.select_box ≡ none) ⊎ (r.select_box ≡ some r.value)
    → Shows (reset_highlight r)
unfolding reset_highlight draw
reset_highlight-Shows r i b = record {
  in_range = i;
  box = b;
  level = r.value;
  shade = r.enabled;
  drawn = refl;
  of_state = inl refl;
  disabled = λ e. e;
}

step-Shows : (i : Input) (r : Ratings) → Shows r → Shows (step i r)
unfolding step set_enabled on_mouse_over on_mouse_out on_click on_key_down draw
step-Shows (call_set_index a) r s = set_index-Shows a r s
step-Shows (call_set_enabled true) r s = record {
  in_range = s.in_range;
  box = s.box;
  level = s.level;
  shade = s.shade;
  drawn = s.drawn;
  of_state = s.of_state;
  disabled = λ e. absurd (ground (arith, e));
}
step-Shows (call_set_enabled false) r s =
    reset_highlight-Shows (record r { enabled = false }) s.in_range s.box
step-Shows (mouse_over none) r s = s
step-Shows (mouse_over (some i)) r s =
    if_elim Shows (r.enabled && not (int_eqb r.highlighted (pos i))) _ _
      (record {
        in_range = s.in_range;
        box = s.box;
        level = pos i;
        shade = r.enabled;
        drawn = refl;
        of_state = inr refl;
        disabled = λ e. e;
      })
      s
step-Shows (mouse_out none) r s = s
step-Shows (mouse_out (some is_star)) r s =
    if_elim Shows is_star _ _ s (reset_highlight-Shows r s.in_range s.box)
step-Shows (click none) r s = s
step-Shows (click (some i)) r s = if_elim Shows r.enabled _ _ (set_index-Shows (pos i) r s) s
step-Shows (key_down code) r s = if_elim Shows r.enabled _ _ (moved (key_target code r)) s
  where
    moved : (o : Option ℤ) → Shows (elim o [ none ↦ r | some a ↦ set_index a r ])
    moved none = s
    moved (some a) = set_index-Shows a r s

run-Shows_from : (is : List Input) (r : Ratings) → Shows r → Shows (run is r)
unfolding run
run-Shows_from [] r s = s
run-Shows_from (i ∷ is) r s = run-Shows_from is (step i r) (step-Shows i r s)

-- Whatever is called, the value stays between -1 and the last index, the select box shows it, and
-- the stars are those of the value or of the star under the pointer; no star of a disabled control
-- is drawn as enabled.
run-Shows : (is : List Input) (count : ℕ) (box : Bool) → Shows (run is (new_ratings count box))
unfolding new_ratings draw InRange
run-Shows is count box = run-Shows_from is (new_ratings count box) (record {
  in_range = refl;
  box =
      if_elim (λ o. (o ≡ none) ⊎ (o ≡ some (negsuc 0))) box (some (negsuc 0)) none (inr refl)
        (inl refl);
  level = negsuc 0;
  shade = true;
  drawn = refl;
  of_state = inl refl;
  disabled = λ e. absurd (ground (arith, e));
})
