-- ===== src/Party/Lobby/Rows.antt =====
-- The rows of the two tables (`number_of_rows`, `cell_for_row`).
use demolition_app.Base.{
  ℕ, String, ◌≡◌, ◌<◌, refl, some, length, get_elem?, get_elem?_of_lt, arith, List, [], ◌∷◌, zero,
  suc, ◌↔◌,
}
use demolition_app.Party.Lobby.{
  Lobby, Table, attackers_table, defenders_table, unknown_table, number_of_rows, cell_for_row,
}

get_elem?-lt {ℓ} :
    {A : Type ℓ} (xs : List A) (i : ℕ) (x : A) → get_elem? xs i ≡ some x → i < length xs
get_elem?-lt [] i x h = ground arith
get_elem?-lt (y ∷ xs) zero x h = omega arith
get_elem?-lt (y ∷ xs) (suc i) x h = omega (arith, get_elem?-lt xs i x h)

-- A table that has a number of rows gives a cell for exactly the rows below that number, so that
-- no index of a displayed row traps, and the table that is neither of the two traps on both calls.
cell_for_row-number_of_rows :
    (l : Lobby) (t : Table) (i : ℕ)
    → ((name : String) × (cell_for_row l t i ≡ some name))
      ↔ ((n : ℕ) × (number_of_rows l t ≡ some n) × (i < n))
unfolding cell_for_row number_of_rows
cell_for_row-number_of_rows l attackers_table i = (
  λ h. (length l.attackers, refl, get_elem?-lt l.attackers i h.0 h.1),
  λ h. get_elem?_of_lt l.attackers i (ground arith),
)
cell_for_row-number_of_rows l defenders_table i = (
  λ h. (length l.defenders, refl, get_elem?-lt l.defenders i h.0 h.1),
  λ h. get_elem?_of_lt l.defenders i (ground arith),
)
cell_for_row-number_of_rows l unknown_table i = (λ h. cc, λ h. cc)
