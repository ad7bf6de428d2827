-- ===== src/Survey/Report.antt =====
-- What the site that shows the survey is told of the answers: `Jt`.
pub mod Privacy
mod Examples
use demolition_app.Base.Dict.{has_text}
use demolition_app.Base.{
  ℕ, zero, suc, ◌/◌, ltb, Bool, true, false, not, ◌&&◌, ◌||◌, if◌then◌else◌, String, str_eq, Option,
  none, some, ◌>>=◌, List, [], ◌∷◌, get_elem?,
}

-- The names of a response: `s`, `r`, `i` and `t`.
pub data ResponseName : Type 0 where
  started given position from_other : ResponseName

-- The keys of a beacon: `r.` with a name and the place of a question, `m.` with a name and perhaps such
-- a place, `t`, or another one.
pub data Key : Type 0 where
  response : ResponseName → ℕ → Key
  measure : String → Option ℕ → Key
  verdict_type : Key
  unlisted : String → Key

pub record Entry : Type 0 where
  pub key : Key
  pub values : List String

-- What is read of a question: its type, its answers, and `hasOther`.
pub record Asked : Type 0 where
  pub type : String
  pub answers : List String
  pub has_other : Bool

-- The digit that `substring` takes of the place: the first one.
pub leading_from : ℕ → ℕ → ℕ
leading_from zero n = n
leading_from (suc fuel) n = let rest = leading_from fuel (n / 10) in if ltb n 10 then n else rest

-- With the number itself as fuel the digits run out first.
pub leading : ℕ → ℕ
unfolding leading_from
leading n = leading_from n n

-- Whether the answers of a type are free.
pub is_open : String → Bool
is_open type =
    str_eq type "open-text"
    || str_eq type "open-text-image"
    || str_eq type "open-numeric"
    || str_eq type "take-picture"

pub any_missing : List String → List String → Bool
any_missing answers [] = false
any_missing answers (v ∷ vs) = not (has_text answers v) || any_missing answers vs

pub is_given : ResponseName → Bool
is_given given = true
is_given started = false
is_given position = false
is_given from_other = false

-- An answer that is not one of the question's becomes "Other".
pub veil : ResponseName → Asked → List String → List String
unfolding any_missing is_given
veil name q values =
    if is_given name && q.has_other && any_missing q.answers values then "Other" ∷ [] else values

-- A response, of the question that was found for it; it is an error when there is none.
pub screen_response : ResponseName → ℕ → List String → Option Asked → Option (Option Entry)
unfolding veil is_open
screen_response name n values none = none
screen_response name n values (some q) = some (
    if is_open q.type
    then none
    else some (record { key = response name n; values = veil name q values }))

pub has_place : Option ℕ → Bool
has_place none = false
has_place (some n) = true

-- A measure; the first argument is whether the client is "gws", which is told only that the survey was
-- closed.
pub screen_measure : Bool → String → Option ℕ → List String → Option Entry
unfolding has_place
screen_measure gws name place values =
    let kept : Option Entry = some (record { key = measure name place; values = values }) in
    let is_close = str_eq name "sh" && not (has_place place) && has_text values "close" in
    if str_eq name "pa" && has_place place then none else if gws && not is_close then none else kept

module _ (gws : Bool) (questions : List Asked) where
  pub screen : Key → List String → Option (Option Entry)
  unfolding screen_response screen_measure leading
  screen (response name n) values = screen_response name n values (get_elem? questions (leading n))
  screen (measure name place) values = some (screen_measure gws name place values)
  screen verdict_type values = some (some (record { key = verdict_type; values = values }))
  screen (unlisted name) values = some none

  pub put : Option Entry → List Entry → List Entry
  put none es = es
  put (some e) es = e ∷ es

  -- `Jt`
  pub report : List Entry → Option (List Entry)
  unfolding screen put
  report [] = some []
  report (e ∷ es) = screen e.key e.values >>= λ kept. report es >>= λ rest. some (put kept rest)
