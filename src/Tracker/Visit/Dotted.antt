-- ===== src/Tracker/Visit/Dotted.antt =====
-- Numbers as decimal texts, and texts that are joined and split at dots, as the cookies are written and read.
use demolition_app.Base.{
  ℕ, zero, suc, ◌+◌, ◌-◌, ◌*◌, ◌/◌, ◌%◌, ◌≤◌, ◌≡◌, refl, sym, ap, ◌∙◌, ltb, leb, ◌==◌, Bool, true,
  false, not, ◌&&◌, if◌then◌else◌, if_cases, Option, some, none, List, [], ◌∷◌, ◌++◌, All, arith,
}

-- A text is the list of its code units.
abbrev pub Text : Type 0
Text = List ℕ

pub is_digit : ℕ → Bool
is_digit c = leb 48 c && leb c 57

-- With the number itself as fuel the digits run out first.
pub decimal_from : ℕ → ℕ → Text
decimal_from zero n = (48 + n % 10) ∷ []
decimal_from (suc fuel) n =
    let rest = decimal_from fuel (n / 10) in
    if ltb n 10 then (48 + n) ∷ [] else rest ++ (48 + n % 10) ∷ []

-- `String(n)`
pub decimal : ℕ → Text
unfolding decimal_from
decimal n = decimal_from n n

-- The number of decimal digits that follow others.
pub number_from : ℕ → Text → Option ℕ
unfolding is_digit
number_from a [] = some a
number_from a (c ∷ cs) =
    let rest = number_from (a * 10 + (c - 48)) cs in if is_digit c then rest else none

-- What `1*` makes of digits, and of the empty text; of a text of another form it is none here.
pub digits_number : Text → Option ℕ
unfolding number_from
digits_number text = number_from 0 text

-- `join(".")`
pub join_dots : List Text → Text
join_dots [] = []
join_dots (x ∷ []) = x
join_dots (x ∷ y ∷ ys) = x ++ 46 ∷ join_dots (y ∷ ys)

pub push_unit : ℕ → List Text → List Text
push_unit c [] = (c ∷ []) ∷ []
push_unit c (x ∷ xs) = (c ∷ x) ∷ xs

-- `split(".")`
pub split_dots : Text → List Text
unfolding push_unit
split_dots [] = [] ∷ []
split_dots (c ∷ cs) = let rest = split_dots cs in if c == 46 then [] ∷ rest else push_unit c rest

pub units_eq : Text → Text → Bool
units_eq [] [] = true
units_eq [] (d ∷ ds) = false
units_eq (c ∷ cs) [] = false
units_eq (c ∷ cs) (d ∷ ds) = c == d && units_eq cs ds

-- `/^\d+$/`
pub all_digits : Text → Bool
unfolding is_digit
all_digits [] = true
all_digits (c ∷ cs) = is_digit c && all_digits cs

pub is_digits : Text → Bool
unfolding all_digits units_eq
is_digits text = not (units_eq text []) && all_digits text

pub units_eq_refl : (t : Text) → units_eq t t ≡ true
unfolding units_eq
units_eq_refl [] = refl
units_eq_refl (c ∷ cs) = ground (arith, units_eq_refl cs)

-- No dot is in a text.
abbrev pub IsDotless : Text → Type 0
IsDotless t = All (λ c. (c == 46) ≡ false) t

split_dots-last : (x : Text) → IsDotless x → split_dots x ≡ x ∷ []
unfolding split_dots push_unit
split_dots-last [] h = refl
split_dots-last (c ∷ cs) (e, h) = rw e (ap (push_unit c) (split_dots-last cs h))

split_dots-append :
    (x rest : Text) → IsDotless x → split_dots (x ++ 46 ∷ rest) ≡ x ∷ split_dots rest
unfolding split_dots push_unit
split_dots-append [] rest h = refl
split_dots-append (c ∷ cs) rest (e, h) = rw e (ap (push_unit c) (split_dots-append cs rest h))

-- Texts without dots that are joined are split again.
pub split_dots-join_dots :
    (x : Text) (xs : List Text)
    → IsDotless x
    → All IsDotless xs
    → split_dots (join_dots (x ∷ xs)) ≡ x ∷ xs
unfolding join_dots
split_dots-join_dots x [] h hs = split_dots-last x h
split_dots-join_dots x (y ∷ ys) h (g, hs) =
    split_dots-append x (join_dots (y ∷ ys)) h ∙ ap (x ∷◌) (split_dots-join_dots y ys g hs)

IsDotless-append : (xs : Text) (y : ℕ) → IsDotless xs → (y == 46) ≡ false → IsDotless (xs ++ y ∷ [])
IsDotless-append [] y h g = (g, tt)
IsDotless-append (x ∷ xs) y (h, hs) g = (h, IsDotless-append xs y hs g)

decimal_from-IsDotless : (fuel n : ℕ) → IsDotless (decimal_from fuel n)
unfolding decimal_from
decimal_from-IsDotless zero n = (ground arith, tt)
decimal_from-IsDotless (suc fuel) n =
    if_cases IsDotless (ltb n 10) _ _ (λ e. (ground (arith, e), tt))
      (λ _.
        IsDotless-append (decimal_from fuel (n / 10)) _ (decimal_from-IsDotless fuel (n / 10))
          (ground arith))

pub decimal-IsDotless : (n : ℕ) → IsDotless (decimal n)
unfolding decimal
decimal-IsDotless n = decimal_from-IsDotless n n

++-assoc : (xs : Text) (c : ℕ) (ys : Text) → ((xs ++ c ∷ []) ++ ys) ≡ (xs ++ c ∷ ys)
++-assoc [] c ys = refl
++-assoc (x ∷ xs) c ys = ap (x ∷◌) (++-assoc xs c ys)

number_from-digit :
    (a d : ℕ) (ys : Text)
    → ltb d 10 ≡ true
    → number_from a ((48 + d) ∷ ys) ≡ number_from (a * 10 + d) ys
unfolding number_from is_digit
number_from-digit a d ys h =
    let e : 48 + d - 48 ≡ d = omega arith in
    let g : (leb 48 (48 + d) && leb (48 + d) 57) ≡ true = ground (arith, h) in rw (g, e) refl

number_from-decimal_from :
    (fuel n : ℕ) (ys : Text)
    → n ≤ fuel
    → number_from 0 (decimal_from fuel n ++ ys) ≡ number_from n ys
unfolding decimal_from
number_from-decimal_from zero n ys h =
    number_from-digit 0 (n % 10) ys (ground arith) ∙ ap (λ m. number_from m ys) (omega (arith, h))
number_from-decimal_from (suc fuel) n ys h =
    if_cases (λ (t : Text). number_from 0 (t ++ ys) ≡ number_from n ys) (ltb n 10) _ _
      (λ e. number_from-digit 0 n ys e ∙ ap (λ m. number_from m ys) (omega arith))
      (λ e.
        ap (number_from 0) (++-assoc (decimal_from fuel (n / 10)) (48 + n % 10) ys)
        ∙ number_from-decimal_from fuel (n / 10) ((48 + n % 10) ∷ ys) (ground (arith, h, e))
        ∙ number_from-digit (n / 10) (n % 10) ys (ground arith)
        ∙ ap (λ m. number_from m ys) (omega arith))

append-nil : (xs : Text) → (xs ++ []) ≡ xs
append-nil [] = refl
append-nil (x ∷ xs) = ap (x ∷◌) (append-nil xs)

-- The text of a number is read as the number.
pub digits_number-decimal : (n : ℕ) → digits_number (decimal n) ≡ some n
unfolding digits_number decimal
digits_number-decimal n =
    ap (number_from 0) (sym (append-nil (decimal_from n n)))
    ∙ number_from-decimal_from n n [] (omega arith)

decimal_from-all_digits : (fuel n : ℕ) → all_digits (decimal_from fuel n) ≡ true
unfolding decimal_from all_digits is_digit
decimal_from-all_digits zero n = ground arith
decimal_from-all_digits (suc fuel) n =
    if_cases (λ (t : Text). all_digits t ≡ true) (ltb n 10) _ _ (λ e. ground (arith, e))
      (λ _.
        all_digits-append (decimal_from fuel (n / 10)) (48 + n % 10)
          (decimal_from-all_digits fuel (n / 10)) (ground arith))
  where
    all_digits-append :
        (xs : Text) (y : ℕ)
        → all_digits xs ≡ true
        → is_digit y ≡ true
        → all_digits (xs ++ y ∷ []) ≡ true
    all_digits-append [] y h g = ground (arith, g)
    all_digits-append (x ∷ xs) y h g =
        ground (arith, h, all_digits-append xs y (ground (arith, h)) g)

decimal_from-filled : (fuel n : ℕ) → units_eq (decimal_from fuel n) [] ≡ false
unfolding decimal_from units_eq
decimal_from-filled zero n = refl
decimal_from-filled (suc fuel) n =
    if_cases (λ (t : Text). units_eq t [] ≡ false) (ltb n 10) _ _ (λ _. refl)
      (λ _. filled (decimal_from fuel (n / 10)) (48 + n % 10))
  where
    filled : (xs : Text) (y : ℕ) → units_eq (xs ++ y ∷ []) [] ≡ false
    filled [] y = refl
    filled (x ∷ xs) y = refl

-- The text of a number has digits only, and at least one.
pub decimal-is_digits : (n : ℕ) → is_digits (decimal n) ≡ true
unfolding decimal is_digits
decimal-is_digits n = ground (arith, decimal_from-filled n n, decimal_from-all_digits n n)
