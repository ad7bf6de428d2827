-- ===== src/Tracker/Visit/Cookies.antt =====
-- The cookies `__utma` and `__utmb`, and what is read of them: `cd`, `bd`, `dd`, `ed`.
pub mod Known
use demolition_app.Base.{
  ℕ, zero, suc, ltb, Bool, true, false, not, ◌&&◌, if◌then◌else◌, Option, none, some, ◌>>=◌, List,
  [], ◌∷◌,
}
use demolition_app.Tracker.Visit.{Visit}
use demolition_app.Tracker.Visit.Dotted.{Text, decimal, join_dots, split_dots, units_eq, is_digits}

-- `void 0!=b?b:"-"`
pub number_part : Option ℕ → Text
number_part none = 45 ∷ []
number_part (some n) = decimal n

-- `c||"-"`
pub part_of : ℕ → Text
part_of zero = 45 ∷ []
part_of (suc n) = decimal (suc n)

-- `cd`
pub visitor_cookie : Visit → Text
unfolding part_of number_part
visitor_cookie v = join_dots (
    decimal v.hash
    ∷ number_part v.visitor
    ∷ part_of v.first
    ∷ part_of v.last
    ∷ part_of v.current
    ∷ decimal v.count
    ∷ [])

-- `ad`: without the hash of a domain any number is one.
pub is_other : Text → Option ℕ → Bool
is_other part none = not (is_digits part)
is_other part (some hash) = not (units_eq part (decimal hash))

-- `dd`
pub visit_cookie : Visit → Text
visit_cookie v =
    join_dots (decimal v.hash ∷ decimal v.hits ∷ decimal v.tokens ∷ decimal v.refilled ∷ [])

pub fresh_counts : Visit → Visit
fresh_counts v = record v { hits = 0; tokens = 10; refilled = v.start }

-- What `1*` makes of a text is a parameter, none where it is no whole number from 0 on.
module _ (number : Text → Option ℕ) where
  -- The numbers of `bd`, with what is required of them.
  pub take_visitor : Text → Text → Text → Text → Text → Visit → Option Visit
  take_visitor q first last current count v = number q >>= λ visitor. number first >>= λ a.
      number last >>= λ b. number current >>= λ c. number count >>= λ n.
      (if ltb 0 a && ltb 0 b && ltb 0 c
        then some (record v { visitor = some visitor; first = a; last = b; current = c; count = n })
        else none)

  pub take_parts : Bool → List Text → Visit → Option Visit
  unfolding is_other take_visitor
  take_parts linked (h ∷ q ∷ first ∷ last ∷ current ∷ count ∷ []) v =
      if is_other h (if linked then none else some v.hash)
      then none
      else take_visitor q first last current count v
  take_parts linked [] v = none
  take_parts linked (a ∷ []) v = none
  take_parts linked (a ∷ b ∷ []) v = none
  take_parts linked (a ∷ b ∷ c ∷ []) v = none
  take_parts linked (a ∷ b ∷ c ∷ d ∷ []) v = none
  take_parts linked (a ∷ b ∷ c ∷ d ∷ e ∷ []) v = none
  take_parts linked (a ∷ b ∷ c ∷ d ∷ e ∷ f ∷ g ∷ ps) v = none

  -- `bd`; the first argument is whether the cookie comes from another site.
  pub read_visitor : Bool → Text → Visit → Option Visit
  unfolding take_parts
  read_visitor linked text v = take_parts linked (split_dots text) v

  pub take_counts : Bool → List Text → Visit → Option Visit
  unfolding is_other fresh_counts
  take_counts linked (h ∷ hits ∷ tokens ∷ refilled ∷ []) v =
      if is_other h (if linked then none else some v.hash)
      then some (fresh_counts v)
      else (number hits >>= λ a. number tokens >>= λ b.
          number refilled >>= λ c. some (record v { hits = a; tokens = b; refilled = c }))
  take_counts linked [] v = some (fresh_counts v)
  take_counts linked (a ∷ []) v = some (fresh_counts v)
  take_counts linked (a ∷ b ∷ []) v = some (fresh_counts v)
  take_counts linked (a ∷ b ∷ c ∷ []) v = some (fresh_counts v)
  take_counts linked (a ∷ b ∷ c ∷ d ∷ e ∷ ps) v = some (fresh_counts v)

  -- `ed`: the visit that it leaves, or none where it keeps something that is no whole number from 0 on.
  pub read_visit : Bool → Text → Visit → Option Visit
  unfolding take_counts
  read_visit linked text v = take_counts linked (split_dots text) v
