-- ===== src/Prompt/RunQueue/Examples.antt =====
-- The runner at calls that count down.
use demolition_app.Base.{ℕ, zero, suc, ◌≡◌, ◌<◌, true, some, List, [], ◌∷◌, arith}
use demolition_app.Prompt.RunQueue.{FreeList, Async, run_queue}
use demolition_app.Prompt.RunQueue.Order.{total, Drained, run_queue-Drained}

-- The call n makes the call n - 1.
abbrev count_down : ℕ → List ℕ
count_down zero = []
count_down (suc n) = n ∷ []

abbrev weight : ℕ → ℕ
weight n = suc n

count_down-lighter : (n : ℕ) → total weight (count_down n) < weight n
count_down-lighter zero = omega arith
count_down-lighter (suc n) = omega arith

abbrev waiting : Async ℕ
waiting = record { queue = 2 ∷ 1 ∷ []; scheduled = true; asked = 1 }

run_queue-Drained_example :
    (s' : Async ℕ) × (ran : List ℕ) × (run_queue count_down 6 waiting ≡ some (s', ran))
    × Drained count_down (2 ∷ 1 ∷ []) s' ran
run_queue-Drained_example =
    run_queue-Drained count_down weight 6 waiting count_down-lighter (omega arith)

abbrev two_items : FreeList
two_items = record { count = 2; items = 7 ∷ 8 ∷ [] }
