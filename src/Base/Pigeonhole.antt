-- ===== src/Base/Pigeonhole.antt =====
-- A list of texts that holds each of as many different texts holds each of them once.
use Prim.Native.Nat.{suc}
use Prim.Native.String.{String}
use mathlib.Core.Path.{◌≡◌, refl}
use mathlib.Core.Logic.{◌⊎◌, inl, inr, ◌≢◌}
use mathlib.Core.List.{List, [], ◌∷◌}
use native.Mathlib.Omega.{arith}
use text.Mathlib.Text.{◌==◌ as str_eq}
use text.Mathlib.TextEquality.{eq_iff}
use demolition_app.Base.Tests.{if◌then◌else◌}
use demolition_app.Base.Lists.{length, Occurs}
use demolition_app.Base.Dict.{DistinctTexts}

-- The list without the first occurrence of a text.
without : String → List String → List String
without d [] = []
without d (x ∷ xs) = if str_eq x d then xs else x ∷ without d xs

length-without :
    (d : String) (xs : List String) → Occurs d xs → suc (length (without d xs)) ≡ length xs
unfolding without
length-without d [] h = absurd h
length-without d (x ∷ xs) h = ground (arith, eq_iff x d, length-without d xs)

Occurs-without : (d k : String) (xs : List String) → Occurs k xs → d ≢ k → Occurs k (without d xs)
unfolding without
Occurs-without d k [] h ne = h
Occurs-without d k (x ∷ xs) h ne = ground (arith, eq_iff x d, Occurs-without d k xs)

of-Occurs-without :
    (d k : String) (xs : List String) → Occurs k xs → (d ≡ k) ⊎ Occurs k (without d xs)
unfolding without
of-Occurs-without d k [] h = absurd h
of-Occurs-without d k (x ∷ xs) h = ground (arith, eq_iff x d, of-Occurs-without d k xs)

without-distinct :
    (d : String) (xs : List String)
    → DistinctTexts (without d xs)
    → ¬ Occurs d (without d xs)
    → DistinctTexts xs
unfolding without DistinctTexts
without-distinct d [] h n = tt
without-distinct d (x ∷ xs) h n =
    ground (arith, eq_iff x d, without-distinct d xs, Occurs-without d x xs)

-- The texts of `ds` differ, all of them are in `xs`, and the two lists are of one length: then the
-- texts of `xs` differ too, and all of them are in `ds`.
pub pigeonhole :
    (ds xs : List String)
    → DistinctTexts ds
    → ((k : String) → Occurs k ds → Occurs k xs)
    → length ds ≡ length xs
    → DistinctTexts xs × ((k : String) → Occurs k xs → Occurs k ds)
unfolding DistinctTexts
pigeonhole [] [] h sub n = (tt, λ k o. o)
pigeonhole [] (x ∷ xs) h sub n = absurd (omega arith)
pigeonhole (d ∷ ds) xs h sub n =
    let here : Occurs d xs = sub d (inl refl) in
    let rest =
      pigeonhole ds (without d xs) h.1
        (λ k o. Occurs-without d k xs (sub k (inr o)) (λ e. h.0 (rw e o)))
        (omega (arith, length-without d xs here)) in
    (
      without-distinct d xs rest.0 (λ o. h.0 (rest.1 d o)),
      λ k o. elim (of-Occurs-without d k xs o) [ inl e ↦ inl e | inr o' ↦ inr (rest.1 k o') ],
    )
