-- ===== src/Prompt/RunQueue/Order.antt =====
-- The order in which calls are run, and that all are.
use demolition_app.Base.{
  ℕ, zero, suc, ◌+◌, ◌≡◌, ◌<◌, ◌≤◌, refl, Bool, true, false, some, List, [], ◌∷◌, ◌++◌, append-nil,
  append_assoc, length, arith, if_elim, ap, sym, ◌∙◌,
}
use demolition_app.Prompt.RunQueue.{
  FreeList, max_count, get, put, Async, run_later, run_all_later, run_queue,
}

module _ {ℓ} {Task : Type ℓ} where
  -- What the calls of a list make, in order.
  abbrev pub made : (Task → List Task) → List Task → List Task
  made calls [] = []
  made calls (t ∷ ts) = calls t ++ made calls ts

  abbrev pub total : (Task → ℕ) → List Task → ℕ
  total weight [] = 0
  total weight (t ∷ ts) = weight t + total weight ts

  total-append :
      (weight : Task → ℕ) (xs ys : List Task)
      → total weight (xs ++ ys) ≡ total weight xs + total weight ys
  total-append weight [] ys = omega arith
  total-append weight (x ∷ xs) ys = omega (arith, total-append weight xs ys)

  run_all_later-queue :
      (ts : List Task) (s : Async Task) → (run_all_later ts s).queue ≡ s.queue ++ ts
  unfolding run_all_later run_later
  run_all_later-queue [] s = sym (append-nil s.queue)
  run_all_later-queue (t ∷ ts) s =
      run_all_later-queue ts (run_later t s)
      ∙ if_elim (λ (r : Async Task). r.queue ++ ts ≡ s.queue ++ t ∷ ts) s.scheduled
          (record s { queue = s.queue ++ t ∷ [] })
          (record s { queue = s.queue ++ t ∷ []; scheduled = true; asked = s.asked + 1 })
          (append_assoc s.queue (t ∷ []) ts) (append_assoc s.queue (t ∷ []) ts)

  -- What the runner leaves: no call waits, and the calls ran in the order in which they were made.
  pub record Drained (calls : Task → List Task) (queue : List Task) (s : Async Task)
      (ran : List Task) : Type ℓ where
    pub emptied : s.queue ≡ []
    pub idle : s.scheduled ≡ false
    pub in_order : ran ≡ queue ++ made calls ran

  Runs : (Task → List Task) → ℕ → Async Task → Type ℓ
  Runs calls n s =
      (s' : Async Task) × (ran : List Task) × (run_queue calls n s ≡ some (s', ran))
      × Drained calls s.queue s' ran

  Runs-from :
      (calls : Task → List Task) (weight : Task → ℕ) (n : ℕ) (queue : List Task) (scheduled : Bool)
      (asked : ℕ)
      → ((t : Task) → total weight (calls t) < weight t)
      → total weight queue < n
      → Runs calls n (record { queue = queue; scheduled = scheduled; asked = asked })
  unfolding run_queue Runs
  Runs-from calls weight zero queue b k lighter enough = absurd (omega (arith, enough))
  Runs-from calls weight (suc n) [] b k lighter enough = (
    record { queue = []; scheduled = false; asked = k },
    [],
    refl,
    record { emptied = refl; idle = refl; in_order = refl },
  )
  Runs-from calls weight (suc n) (t ∷ ts) b k lighter enough =
      let s₁ = run_all_later (calls t) (record { queue = ts; scheduled = b; asked = k }) in
      let e : s₁.queue ≡ ts ++ calls t =
        run_all_later-queue (calls t) (record { queue = ts; scheduled = b; asked = k }) in
      let less : total weight s₁.queue < n =
        omega (arith, ap (total weight) e, total-append weight ts (calls t), lighter t, enough) in
      let (s', ran, er, d) = Runs-from calls weight n s₁.queue s₁.scheduled s₁.asked lighter less in
      (
        s',
        t ∷ ran,
        rw er refl,
        record {
          emptied = d.emptied;
          idle = d.idle;
          in_order =
              ap (λ r. t ∷ r)
                (d.in_order
                  ∙ ap (λ q. q ++ made calls ran) e
                  ∙ append_assoc ts (calls t) (made calls ran));
        },
      )

  -- When every call has a weight above that of all the calls that it makes, the runner ends: one
  -- more round than the weight of the queue is enough, and then every call was run, each after
  -- all that were made before it.
  pub run_queue-Drained :
      (calls : Task → List Task) (weight : Task → ℕ) (n : ℕ) (s : Async Task)
      → ((t : Task) → total weight (calls t) < weight t)
      → total weight s.queue < n
      → (s' : Async Task) × (ran : List Task) × (run_queue calls n s ≡ some (s', ran))
        × Drained calls s.queue s' ran
  unfolding Runs
  run_queue-Drained calls weight n s lighter enough =
      Runs-from calls weight n s.queue s.scheduled s.asked lighter enough

-- The list of unused items holds as many as it counts, at most 100.
pub record IsCounted (f : FreeList) : Type 0 where
  pub counted : f.count ≡ length f.items
  pub bounded : f.count ≤ max_count

get_from :
    (fresh count : ℕ) (items : List ℕ)
    → IsCounted (record { count = count; items = items })
    → IsCounted (get fresh (record { count = count; items = items })).0
unfolding get
get_from fresh count [] h = record {
  counted = ground (arith, h.counted);
  bounded = ground (arith, h.bounded);
}
get_from fresh count (i ∷ is) h = record {
  counted = ground (arith, h.counted);
  bounded = ground (arith, h.bounded);
}

-- Taking an item and giving one back keep the count of the unused items exact and at most 100.
put-get-IsCounted :
    (fresh item : ℕ) (f : FreeList)
    → IsCounted f
    → IsCounted (get fresh f).0 × IsCounted (put item f)
unfolding put
put-get-IsCounted fresh item f h = (
  get_from fresh f.count f.items h,
  record { counted = ground (arith, h.counted); bounded = ground (arith, h.bounded) },
)
