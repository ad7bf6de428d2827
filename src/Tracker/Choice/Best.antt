-- ===== src/Tracker/Choice/Best.antt =====
-- The best cookies are those of the wanted size, and rounding keeps the order of the times.
use mathlib.Core.List.{append_assoc, append-nil}
use demolition_app.Base.{
  ℕ, ◌≤◌, ◌≡◌, ◌≢◌, refl, sym, ap, ◌∙◌, ltb, ◌==◌, Bool, if◌then◌else◌, if_elim, Bool-cases, inl,
  inr, List, [], ◌∷◌, ◌++◌, arith,
}
use demolition_app.Tracker.Choice.{Cookie, size_of, Search, turn, search, or_else, best, rounded}

-- The cookies of a size, in their order.
unfoldable pub of_size : Bool → ℕ → List Cookie → List Cookie
of_size of_path b [] = []
of_size of_path b (k ∷ ks) =
    let rest = of_size of_path b ks in if size_of of_path k == b then k ∷ rest else rest

turn-exact :
    (of_path : Bool) (b : ℕ) (k : Cookie) (ks : List Cookie) (s : Search)
    → (turn of_path b k s).exact ++ of_size of_path b ks ≡ s.exact ++ of_size of_path b (k ∷ ks)
unfolding turn of_size
turn-exact of_path b k ks s =
    let rest = of_size of_path b ks in
    let same : Search → Type 0 = λ u. u.exact ++ rest ≡ s.exact ++ rest in
    elim (Bool-cases (size_of of_path k == b)) [
      | inl e ↦ rw e (append_assoc s.exact (k ∷ []) rest)
      | inr e ↦ rw e (
          if_elim same (size_of of_path k == s.least) _ _ refl
            (if_elim same (ltb (size_of of_path k) s.least) _ _ refl refl))
    ]

search-exact :
    (of_path : Bool) (b : ℕ) (ks : List Cookie) (s : Search)
    → (search of_path b ks s).exact ≡ s.exact ++ of_size of_path b ks
unfolding search of_size
search-exact of_path b [] s = sym (append-nil s.exact)
search-exact of_path b (k ∷ ks) s =
    search-exact of_path b ks (turn of_path b k s) ∙ turn-exact of_path b k ks s

or_else-left : (js ks : List Cookie) → js ≢ [] → or_else js ks ≡ js
unfolding or_else
or_else-left [] ks h = absurd (h refl)
or_else-left (j ∷ js) ks h = refl

-- Where some cookie has the wanted size, the best ones are all that have it, in their order.
pub best-of_size :
    (of_path : Bool) (b : ℕ) (ks : List Cookie)
    → of_size of_path b ks ≢ []
    → best of_path b ks ≡ of_size of_path b ks
unfolding best
best-of_size of_path b ks h =
    let start : Search = record { exact = []; smallest = []; least = 128 } in
    ap (λ es. or_else es (search of_path b ks start).smallest) (search-exact of_path b ks start)
    ∙ or_else-left (of_size of_path b ks) _ h

-- A rounded time is at most the time and at most 4100000, a longer time is not rounded to a shorter one,
-- and what is rounded stays when it is rounded again.
rounded_mono :
    (m n : ℕ)
    → m ≤ n
    → (rounded m ≤ rounded n)
      × (rounded n ≤ n)
      × (rounded n ≤ 4100000)
      × (rounded (rounded n) ≡ rounded n)
unfolding rounded
rounded_mono m n h = (ground (arith, h), ground arith, ground arith, ground arith)
