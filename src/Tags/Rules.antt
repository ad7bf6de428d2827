-- ===== src/Tags/Rules.antt =====
-- Which tags an event resolves: `Vl`, `Wl`, `Sh`, with the rules read from the container.
pub mod Conditions
pub mod Fired
mod Examples
use demolition_app.Base.{
  ℕ, zero, suc, ◌==◌, ltb, Bool, true, false, not, ◌&&◌, ◌||◌, if◌then◌else◌, String, str_eq,
  Option, none, some, List, [], ◌∷◌, ◌++◌,
}
use demolition_app.Tags.Masks.{Rule}

pub member : ℕ → List ℕ → Bool
member n [] = false
member n (m ∷ ms) = m == n || member n ms

-- What an event keeps: the conditions that were computed, with their results, the tags that rules add and
-- those that rules block, and which rules passed, the newest first.
pub record Event : Type 0 where
  pub known : List (ℕ × Bool)
  pub added : List ℕ
  pub blocked : List ℕ
  pub passed : List Bool

pub known_result : ℕ → List (ℕ × Bool) → Option Bool
known_result n [] = none
known_result n ((m, b) ∷ ks) = let rest = known_result n ks in if m == n then some b else rest

-- What a condition is for the event that is handled; a condition that is not there does not hold.
module _ (holds : ℕ → Bool) where
  -- A result and the event that keeps it.
  pub record Result : Type 0 where
    pub value : Bool
    pub event : Event

  pub of_known : Option Bool → ℕ → Event → Result
  of_known (some b) n e = record { value = b; event = e }
  of_known none n e = record {
    value = holds n;
    event = record e { known = (n, holds n) ∷ e.known };
  }

  -- `Vl`: each condition is computed once.
  pub compute : ℕ → Event → Result
  unfolding of_known known_result
  compute n e = of_known (known_result n e.known) n e

  pub fails_at : Result → Result → Result
  fails_at r rest = if r.value then rest else record { value = false; event = r.event }

  pub holds_at : Result → Result → Result
  holds_at r rest = if r.value then record { value = false; event = r.event } else rest

  -- The loops of `Wl`: all conditions hold, and no exception does.
  pub no_exception : List ℕ → Event → Result
  unfolding compute holds_at
  no_exception [] e = record { value = true; event = e }
  no_exception (n ∷ ns) e = let r = compute n e in holds_at r (no_exception ns r.event)

  pub all_hold : List ℕ → List ℕ → Event → Result
  unfolding compute fails_at no_exception
  all_hold [] exceptions e = no_exception exceptions e
  all_hold (n ∷ ns) exceptions e =
      let r = compute n e in fails_at r (all_hold ns exceptions r.event)

  -- `Wl`
  pub passes : Rule → Event → Result
  unfolding all_hold
  passes rule e = all_hold rule.conditions rule.exceptions e

  pub note_rule : Rule → Result → Event
  note_rule rule r =
      let e = r.event in
      record e {
        added = if r.value then rule.tags ++ e.added else e.added;
        blocked = if r.value then rule.blocked ++ e.blocked else e.blocked;
        passed = r.value ∷ e.passed;
      }

  -- The first loop of `Sh`.
  pub try_rules : List Rule → Event → Event
  unfolding passes note_rule
  try_rules [] e = e
  try_rules (rule ∷ rules) e = try_rules rules (note_rule rule (passes rule e))

  -- The second, for the tags from `n` on, as far as they are added, not blocked and not denied.
  pub resolved : (ℕ → Bool) → ℕ → ℕ → Event → List ℕ
  unfolding member
  resolved denied zero n e = []
  resolved denied (suc k) n e =
      let rest = resolved denied k (suc n) e in
      if member n e.added && not (member n e.blocked) && not (denied n) then n ∷ rest else rest

  pub no_event : Event
  no_event = record { known = []; added = []; blocked = []; passed = [] }

  -- What `Sh` does with an event that it answers, for the 97 tags that there may be.
  pub resolve_event : (ℕ → Bool) → List Rule → List ℕ
  unfolding try_rules resolved no_event
  resolve_event denied rules = resolved denied 97 0 (try_rules rules no_event)

  -- `Sh`: "gtm.js" is answered only the first time, and "gtm.sync" only where it tells of this script; the
  -- result is none where it is not answered, with whether "gtm.js" came by now.
  pub answer : String → Bool → Bool → (ℕ → Bool) → List Rule → Option (List ℕ) × Bool
  unfolding resolve_event
  answer name begun own denied rules =
      let tags = resolve_event denied rules in
      if str_eq name "gtm.js"
      then (if begun then none else some tags, true)
      else (if str_eq name "gtm.sync" && not own then none else some tags, begun)
