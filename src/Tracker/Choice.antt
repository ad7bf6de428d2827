-- ===== src/Tracker/Choice.antt =====
-- Which of several cookies of the other script names the visitor, `cf` and `bf`, and how times are rounded
-- and told, `le`, `je`, `me` and `ke`.
pub mod Best
mod Examples
use demolition_app.Base.{
  ℕ, ◌+◌, ◌*◌, ◌/◌, ◌%◌, zero, suc, ltb, ◌==◌, Bool, true, false, if◌then◌else◌, String, Option,
  none, some, List, [], ◌∷◌, ◌++◌,
}
use demolition_app.Base.Int.{ℤ, pos, negsuc}

-- A cookie that was read: the parts of its domain and of its path, and the visitor.
pub record Cookie : Type 0 where
  pub domain_size : ℕ
  pub path_size : ℕ
  pub visitor : String

pub size_of : Bool → Cookie → ℕ
size_of of_path k = if of_path then k.path_size else k.domain_size

-- The two lists and the number of `bf`.
pub record Search : Type 0 where
  pub exact : List Cookie
  pub smallest : List Cookie
  pub least : ℕ

-- One turn of the loop, for the wanted size `b`.
unfoldable pub turn : Bool → ℕ → Cookie → Search → Search
unfolding size_of
turn of_path b k s =
    let n = size_of of_path k in
    if n == b
    then record s { exact = s.exact ++ k ∷ [] }
    else if n == s.least
    then record s { smallest = s.smallest ++ k ∷ [] }
    else if ltb n s.least
    then record s { smallest = k ∷ []; least = n }
    else s

unfoldable pub search : Bool → ℕ → List Cookie → Search → Search
unfolding turn
search of_path b [] s = s
search of_path b (k ∷ ks) s = search of_path b ks (turn of_path b k s)

pub or_else : List Cookie → List Cookie → List Cookie
or_else [] ks = ks
or_else (j ∷ js) ks = j ∷ js

-- `bf`
unfoldable pub best : Bool → ℕ → List Cookie → List Cookie
unfolding search or_else
best of_path b ks =
    let s = search of_path b ks (record { exact = []; smallest = []; least = 128 }) in
    or_else s.exact s.smallest

pub first_of : List Cookie → Option Cookie
first_of [] = none
first_of (k ∷ ks) = some k

-- What `cf` makes of the cookies that fit the domain: one, or those that fit the path as well.
pub among : ℕ → List Cookie → Option Cookie
unfolding best first_of
among path [] = first_of (best true path [])
among path (k ∷ []) = some k
among path (j ∷ k ∷ ks) = first_of (best true path (j ∷ k ∷ ks))

-- `cf`, for the sizes of the domain and of the path of the tracker.
unfoldable pub choose : ℕ → ℕ → List Cookie → Option Cookie
unfolding best among
choose domain path [] = none
choose domain path (k ∷ []) = some k
choose domain path (j ∷ k ∷ ks) = among path (best false domain (j ∷ k ∷ ks))

-- `le`: a time is told to two digits or so.
unfoldable pub rounded : ℕ → ℕ
rounded n =
    if ltb n 5000
    then 10 * (n / 10)
    else if ltb n 50000
    then 100 * (n / 100)
    else if ltb n 4100000
    then 1000 * (n / 1000)
    else 4100000

-- `le`, for any time.
unfoldable pub rounded_time : ℤ → ℕ
unfolding rounded
rounded_time (pos n) = rounded n
rounded_time (negsuc n) = 0

-- The entries of `je`: the rounded times as keys and the times as values, numbered from 1.
pub record Entry : Type 0 where
  pub number : ℕ
  pub key : ℕ
  pub value : ℤ

unfoldable pub entries_from : ℕ → List ℤ → List Entry
unfolding rounded_time
entries_from n [] = []
entries_from n (t ∷ ts) =
    record { number = suc n; key = rounded_time t; value = t } ∷ entries_from (suc n) ts

-- `af`: all but the first.
unfoldable pub all_known : List ℤ → Bool
all_known [] = true
all_known (pos n ∷ ts) = all_known ts
all_known (negsuc n ∷ ts) = false

-- What `ke` does: nothing, it waits for the page to load, or it tells the times.
pub data Told : Type 0 where
  untold waits : Told
  told : List Entry → Told

-- The times, of which the first is positive once the page is loaded; where another is not known, the first
-- is told alone.
unfoldable pub tell : Option (List ℤ) → Told
unfolding entries_from all_known
tell none = untold
tell (some []) = untold
tell (some (negsuc n ∷ ts)) = waits
tell (some (pos zero ∷ ts)) = waits
tell (some (pos (suc n) ∷ ts)) =
    told (entries_from 0 (if all_known ts then pos (suc n) ∷ ts else pos (suc n) ∷ []))

-- `ke`, for the visitor and the rate, of the times of the page where they are known.
unfoldable pub tell_times : ℕ → ℕ → Option (List ℤ) → Told
unfolding tell
tell_times visitor rate times =
    let least = if ltb rate 100 then rate else 100 in
    if ltb (visitor % 100) least then tell times else untold
