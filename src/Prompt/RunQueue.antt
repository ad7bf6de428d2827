-- ===== src/Prompt/RunQueue.antt =====
-- Calls that are run later, in order (`We`, `Xe`): the queue `Pe` and the list `Le` of its unused
-- items.
pub mod Order
mod Examples
use demolition_app.Base.{
  ℕ, zero, suc, ◌+◌, ◌-◌, Bool, true, false, Option, some, none, List, [], ◌∷◌, ◌++◌, ltb,
  if◌then◌else◌,
}

-- `ai`, and the items from `eb` on, by their identities.
pub record FreeList : Type 0 where
  pub count : ℕ
  pub items : List ℕ

-- `es`
abbrev pub max_count : ℕ
max_count = 100

abbrev first_or : ℕ → List ℕ → ℕ
first_or fresh [] = fresh
first_or fresh (i ∷ is) = i

abbrev rest_of : List ℕ → List ℕ
rest_of [] = []
rest_of (i ∷ is) = is

-- `get`; `fresh` is what `uq` makes.
pub get : ℕ → FreeList → FreeList × ℕ
get fresh f =
    if ltb 0 f.count
    then (record { count = f.count - 1; items = rest_of f.items }, first_or fresh f.items)
    else (f, fresh)

-- `put`
pub put : ℕ → FreeList → FreeList
put item f =
    if ltb f.count max_count then record { count = f.count + 1; items = item ∷ f.items } else f

-- `Ve` by its calls, `Ue`, and how often the runner was asked for (`Se`).
pub record Async {ℓ} (Task : Type ℓ) : Type ℓ where
  pub queue : List Task
  pub scheduled : Bool
  pub asked : ℕ

module _ {ℓ} {Task : Type ℓ} where
  -- `We`
  pub run_later : Task → Async Task → Async Task
  run_later t s =
      if s.scheduled
      then record s { queue = s.queue ++ t ∷ [] }
      else record s { queue = s.queue ++ t ∷ []; scheduled = true; asked = s.asked + 1 }

  -- The calls of `We` that a running call makes.
  pub run_all_later : List Task → Async Task → Async Task
  run_all_later [] s = s
  run_all_later (t ∷ ts) s = run_all_later ts (run_later t s)

  -- The loop of `Xe`, on fuel; a call makes the calls of `We` that `calls` tells, also when it
  -- throws at its end. The result has the calls that were run, the oldest first.
  pub run_queue : (Task → List Task) → ℕ → Async Task → Option (Async Task × List Task)
  run_queue calls zero s = none
  run_queue calls (suc n) s = elim s.queue [
    | [] ↦ some (record s { scheduled = false }, [])
    | t ∷ ts ↦ (elim (run_queue calls n (run_all_later (calls t) (record s { queue = ts }))) [
      | none ↦ none
      | some (s', ran) ↦ some (s', t ∷ ran)
    ])
  ]
