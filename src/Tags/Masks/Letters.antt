-- ===== src/Tags/Masks/Letters.antt =====
-- What is written in letters is read.
use demolition_app.Base.{
  ℕ, zero, suc, Bool, false, ◌/◌, ◌%◌, ◌+◌, ◌-◌, ◌*◌, ◌<◌, ◌≤◌, ◌≡◌, refl, ap, subst, ◌∙◌, if_cases,
  ltb, ◌==◌, true, if◌then◌else◌, List, [], ◌∷◌, ◌++◌, map, length, All, arith,
}
use demolition_app.Tags.Masks.{unit_of, sextet, bit_at, numbers, read_from, read}

-- The letter of a number below 64.
unfoldable pub letter : ℕ → ℕ
letter n =
    if ltb n 26
    then 65 + n
    else if ltb n 52
    then 71 + n
    else if ltb n 62
    then n - 4
    else if n == 62
    then 45
    else 95

sextet-letter : (n : ℕ) → n < 64 → sextet (letter n) ≡ n
unfolding sextet letter
sextet-letter n h = ground (arith, h)

unit_of-letter : (n : ℕ) → n < 64 → unit_of (letter n) ≡ letter n
unfolding unit_of letter
unit_of-letter n h = ground (arith, h)

-- The places of the ones among the first `k` binary digits of a number, the lowest first, from `c` on.
unfoldable pub ones : ℕ → ℕ → ℕ → List ℕ
ones zero c n = []
ones (suc k) c n = let rest = ones k (c + 1) (n / 2) in if n % 2 == 1 then c ∷ rest else rest

-- The places of the ones in numbers of six binary digits each, one number after the other.
unfoldable pub places : ℕ → List ℕ → List ℕ
unfolding ones
places c [] = []
places c (n ∷ ns) = ones 6 c n ++ places (c + 6) ns

cons-if :
    (b : Bool) (c : ℕ) (xs : List ℕ)
    → ((if b then c ∷ [] else []) ++ xs) ≡ (if b then c ∷ xs else xs)
cons-if true c xs = refl
cons-if false c xs = refl

-- A digit that the reader takes by its weight `w`, and those after it.
digit-ones :
    (w c d m n : ℕ) (xs ys : List ℕ)
    → c ≡ d
    → n / w ≡ m
    → xs ≡ ys
    → (bit_at w c n ++ xs) ≡ (if m % 2 == 1 then d ∷ ys else ys)
unfolding bit_at
digit-ones w c d m n xs ys e f g = rw (e, f, g) (cons-if (m % 2 == 1) d ys)

numbers-ones : (c n : ℕ) → numbers c n ≡ ones 6 c n
unfolding numbers ones bit_at
numbers-ones c n = digit-ones 1 c c n n _ _ refl (omega arith) (
    digit-ones 2 (c + 1) (c + 1) (n / 2) n _ _ refl refl (
      digit-ones 4 (c + 2) (c + 1 + 1) (n / 2 / 2) n _ _ (omega arith) (omega arith) (
        digit-ones 8 (c + 3) (c + 1 + 1 + 1) (n / 2 / 2 / 2) n _ _ (omega arith) (omega arith) (
          digit-ones 16 (c + 4) (c + 1 + 1 + 1 + 1) (n / 2 / 2 / 2 / 2) n _ _ (omega arith)
            (omega arith) (last_digit c n)))))
  where
    last_digit :
        (c n : ℕ)
        → bit_at 32 (c + 5) n
          ≡ (if n / 2 / 2 / 2 / 2 / 2 % 2 == 1 then (c + 1 + 1 + 1 + 1 + 1) ∷ [] else [])
    last_digit c n =
        let e : c + 5 ≡ c + 1 + 1 + 1 + 1 + 1 = omega arith in
        let f : n / 32 ≡ n / 2 / 2 / 2 / 2 / 2 = omega arith in rw (e, f) refl

numbers-zero : (c : ℕ) → [] ≡ numbers c 0
unfolding numbers bit_at
numbers-zero c = refl

letter-zero : (n : ℕ) → n < 64 → (letter n == 65) ≡ true → 0 ≡ n
unfolding letter
letter-zero n h e = ground (arith, h, e)

letter-numbers :
    (c n : ℕ)
    → n < 64
    → (if letter n == 65 then [] else numbers c (sextet (letter n))) ≡ numbers c n
letter-numbers c n h =
    if_cases (λ (xs : List ℕ). xs ≡ numbers c n) (letter n == 65) _ _
      (λ e. subst (λ m. [] ≡ numbers c m) (letter-zero n h e) (numbers-zero c))
      (λ _. ap (numbers c) (sextet-letter n h))

letter-ones :
    (c n : ℕ)
    → n < 64
    → (if unit_of (letter n) == 65 then [] else numbers c (sextet (unit_of (letter n))))
      ≡ ones 6 c n
letter-ones c n h =
    ap (λ u. if u == 65 then [] else numbers c (sextet u)) (unit_of-letter n h)
    ∙ letter-numbers c n h
    ∙ numbers-ones c n

read_from-letters :
    (c : ℕ) (ns : List ℕ)
    → All (λ n. n < 64) ns
    → c + 6 * length ns ≤ 102
    → read_from c (map letter ns) ≡ places c ns
unfolding read_from places
read_from-letters c [] h l = refl
read_from-letters c (n ∷ ns) (a, h) l =
    let inside : ltb c 97 ≡ true = ground (arith, l) in
    rw inside (
      ap (λ (xs : List ℕ). xs ++ read_from (c + 6) (map letter ns)) (letter-ones c n a)
      ∙ ap (ones 6 c n ++◌) (read_from-letters (c + 6) ns h (omega (arith, l))))

-- At most 17 numbers below 64, each written as its letter, are read as the places of the ones among their
-- six binary digits, the lowest first, one number after the other.
pub read-letters :
    (ns : List ℕ) → All (λ n. n < 64) ns → length ns ≤ 17 → read (map letter ns) ≡ places 0 ns
unfolding read
read-letters ns h l = read_from-letters 0 ns h (omega (arith, l))
