-- ===== src/Tags/Masks.antt =====
-- The lists of numbers that the manager writes as texts, six numbers for a letter: `Wk`, and `Xk` for the
-- objects that it reads with them.
pub mod Letters
mod Examples
use demolition_app.Base.{
  ℕ, zero, suc, ◌+◌, ◌-◌, ◌*◌, ◌/◌, ◌%◌, ltb, leb, ◌==◌, Bool, true, false, ◌&&◌, if◌then◌else◌,
  String, str_eq, Option, ◌>>=◌, none, some, List, [], ◌∷◌, ◌++◌, get_elem?,
}
use demolition_app.Base.Dict.{Dict, insert}

-- The number of a letter.
unfoldable pub sextet : ℕ → ℕ
sextet e =
    if leb 65 e && leb e 90
    then e - 65
    else if leb 97 e && leb e 122
    then e - 97 + 26
    else if e == 95
    then 63
    else if leb 48 e
    then e - 48 + 52
    else 62

unfoldable pub bit_at : ℕ → ℕ → ℕ → List ℕ
bit_at weight c f = if (f / weight) % 2 == 1 then c ∷ [] else []

-- The numbers of a letter, from `c` on.
unfoldable pub numbers : ℕ → ℕ → List ℕ
unfolding bit_at
numbers c f =
    bit_at 1 c f
    ++ (bit_at 2 (c + 1) f
        ++ (bit_at 4 (c + 2) f
            ++ (bit_at 8 (c + 3) f ++ (bit_at 16 (c + 4) f ++ bit_at 32 (c + 5) f))))

-- `charCodeAt(d)||65`
unfoldable pub unit_of : ℕ → ℕ
unit_of e = if e == 0 then 65 else e

-- The loop of `Wk`, as long as `c` is below the number `Ik`, which is 97.
unfoldable pub read_from : ℕ → List ℕ → List ℕ
unfolding numbers sextet unit_of
read_from c [] = []
read_from c (e ∷ es) =
    let rest = read_from (c + 6) es in
    let u = unit_of e in
    if ltb c 97 then (if u == 65 then [] else numbers c (sextet u)) ++ rest else []

-- `Wk`
unfoldable pub read : List ℕ → List ℕ
unfolding read_from
read es = read_from 0 es

-- The values of an object by their names, of the pairs `Kk` at some numbers; a later one counts, and it is
-- an error when there is no pair.
unfoldable pub object_from {ℓ} :
    {A : Type ℓ} → List (String × A) → List ℕ → Dict A → Option (Dict A)
unfolding insert
object_from pairs [] d = some d
object_from pairs (n ∷ ns) d = get_elem? pairs n >>= λ p. object_from pairs ns (insert p.0 p.1 d)

-- `Xk` in the mode 1.
unfoldable pub object_of {ℓ} : {A : Type ℓ} → List (String × A) → List ℕ → Option (Dict A)
unfolding object_from read
object_of pairs es = object_from pairs (read es) []

-- `Xk` in the mode 2: the four lists of a rule, of which a missing one is empty.
pub record Rule : Type 0 where
  pub conditions : List ℕ
  pub tags : List ℕ
  pub exceptions : List ℕ
  pub blocked : List ℕ

pub part : List (List ℕ) → ℕ → List ℕ
part parts n = elim (get_elem? parts n) [ none ↦ [] | some es ↦ es ]

unfoldable pub read_rule : List (List ℕ) → Rule
unfolding read part
read_rule parts = record {
  conditions = read (part parts 0);
  tags = read (part parts 1);
  exceptions = read (part parts 2);
  blocked = read (part parts 3);
}
