-- ===== src/Prompt/RateThrottler.antt =====
-- The throttle `zd` of error reports: it lets at most so many calls through in an hour.
pub mod Hourly
use demolition_app.Base.{
  ℕ, suc, ◌+◌, Bool, true, false, Option, some, none, List, [], ◌∷◌, ◌++◌, ◌==◌, ltb, if◌then◌else◌,
  length,
}

-- `Os`, in milliseconds
abbrev pub hour : ℕ
hour = 3600000

-- `ia` and `Rb`, the times of the last calls that were let through, the oldest first.
pub record Throttle : Type 0 where
  pub limit : ℕ
  pub times : List ℕ

-- The loop of the constructor drops the oldest times of a stored history that is too long.
pub trim : ℕ → List ℕ → List ℕ
trim limit [] = []
trim limit (t ∷ ts) =
    let rest = trim limit ts in if ltb limit (suc (length ts)) then rest else t ∷ ts

-- `new zd`, with the stored history, if there is one.
pub new_throttle : ℕ → Option (List ℕ) → Throttle
new_throttle limit none = record { limit = limit; times = [] }
new_throttle limit (some stored) = record { limit = limit; times = trim limit stored }

-- `this.Rb[0]<b-this.Os`; without an element the comparison is false.
pub expired : ℕ → List ℕ → Bool
expired now [] = false
expired now (t ∷ ts) = ltb (t + hour) now

abbrev pub shift : List ℕ → List ℕ
shift [] = []
shift (t ∷ ts) = ts

-- `exec`, at the time `now`, with what it returns.
pub exec : ℕ → Throttle → Throttle × Bool
exec now s =
    if length s.times == s.limit
    then if expired now s.times
      then (record s { times = shift s.times ++ now ∷ [] }, true)
      else (s, false)
    else (record s { times = s.times ++ now ∷ [] }, true)

-- The times of the calls that are let through, among calls at these times.
pub accepted : List ℕ → Throttle → List ℕ
accepted [] s = []
accepted (now ∷ rest) s =
    let (s', ok) = exec now s in let later = accepted rest s' in if ok then now ∷ later else later
