-- ===== src/Prompt/XhrIo/Counts.antt =====
-- How often each event of a request object is dispatched.
use demolition_app.Base.{
  ℕ, ◌+◌, ◌≡◌, refl, String, Bool, true, false, not, Option, some, none, List, [], ◌∷◌, ltb,
  if◌then◌else◌, arith, if_elim, subst,
}
use demolition_app.Prompt.XhrIo.{
  XhrEvent, complete, success, error, abort, timeout, ready, ready_state_change, Browser, XhrIo,
  new_xhr, dispatch, clear_timeout, clean_up, send_errors, fail, started, transmit, send, finish,
  on_ready_state_change, abort_request, time_out,
}

abbrev pub same_event : XhrEvent → XhrEvent → Bool
same_event complete complete = true
same_event success success = true
same_event error error = true
same_event abort abort = true
same_event timeout timeout = true
same_event ready ready = true
same_event ready_state_change ready_state_change = true
same_event _ _ = false

abbrev pub one : Bool → ℕ
one true = 1
one false = 0

abbrev pub count : XhrEvent → List XhrEvent → ℕ
count e [] = 0
count e (d ∷ es) = one (same_event e d) + count e es

-- One call from outside, other than `dispose`.
pub data Input : Type 0 where
  call_send : Browser → ℕ → String → String → Input
  call_ready : Browser → Bool → ℕ → ℕ → Input
  call_abort call_time_out : Input

abbrev or_same : XhrIo → Option XhrIo → XhrIo
or_same x none = x
or_same x (some y) = y

-- A `send` that throws changes nothing.
pub step : Input → XhrIo → XhrIo
step (call_send w limit uri method) x = or_same x (send w limit uri method x)
step (call_ready w http ready_state status) x = on_ready_state_change w http ready_state status x
step call_abort x = abort_request x
step call_time_out x = time_out x

-- The requests that an input starts.
pub starts : Input → XhrIo → ℕ
starts (call_send w limit uri method) x = one (not x.requests)
starts (call_ready w http ready_state status) x = 0
starts call_abort x = 0
starts call_time_out x = 0

-- With n requests started so far: only an active object has a request, each request that has ended
-- was told to be complete, once, and why, and to be ready again.
pub record Counted (n : ℕ) (x : XhrIo) : Type 0 where
  pub busy : x.requests ≡ x.active
  pub fresh : x.active ≡ true → x.errors_sent ≡ false
  pub completed : count complete x.sent + one x.active ≡ n
  pub reasons :
      count complete x.sent ≡ count success x.sent + count error x.sent + count abort x.sent
  pub readied : count ready x.sent ≡ count complete x.sent

-- The object while a request is started.
record Started (n : ℕ) (x : XhrIo) : Type 0 where
  asked : x.requests ≡ true
  runs : x.active ≡ true
  fresh : x.errors_sent ≡ false
  completed : count complete x.sent + 1 ≡ n
  reasons : count complete x.sent ≡ count success x.sent + count error x.sent + count abort x.sent
  readied : count ready x.sent ≡ count complete x.sent

Started-Counted : (n : ℕ) (x : XhrIo) → Started n x → Counted n x
Started-Counted n x k = record {
  busy = ground (arith, k.asked, k.runs);
  fresh = λ e. k.fresh;
  completed = ground (arith, k.runs, k.completed);
  reasons = k.reasons;
  readied = k.readied;
}

fail-Counted : (n : ℕ) (x : XhrIo) → Started n x → Counted n (fail x)
unfolding fail send_errors clean_up
fail-Counted n x k = record {
  busy = ground (arith, k.asked, k.fresh);
  fresh = ground (arith, k.asked, k.fresh);
  completed = ground (arith, k.asked, k.fresh, k.completed);
  reasons = ground (arith, k.asked, k.fresh, k.reasons);
  readied = ground (arith, k.asked, k.fresh, k.readied);
}

transmit-Counted :
    (w : Browser) (limit n : ℕ) (x : XhrIo) → Started n x → Counted n (transmit w limit x)
unfolding transmit
transmit-Counted w limit n x k =
    let timed =
      if ltb 0 limit
      then record (clear_timeout x) { native_timeout = w.own_timeout; timer = not w.own_timeout }
      else clear_timeout x in
    let begun : (b : Bool) → Started n (record timed { sending = b }) = λ b.
      (if_elim (λ t. Started n (record t { sending = b })) (ltb 0 limit)
        (record (clear_timeout x) { native_timeout = w.own_timeout; timer = not w.own_timeout })
        (clear_timeout x)
        (record {
          asked = k.asked;
          runs = k.runs;
          fresh = k.fresh;
          completed = k.completed;
          reasons = k.reasons;
          readied = k.readied;
        })
        (record {
          asked = k.asked;
          runs = k.runs;
          fresh = k.fresh;
          completed = k.completed;
          reasons = k.reasons;
          readied = k.readied;
        })) in
    if_elim (Counted n) w.send_throws (fail (record timed { sending = true }))
      (record timed { sending = false })
      (fail-Counted n (record timed { sending = true }) (begun true))
      (Started-Counted n (record timed { sending = false }) (begun false))

send_elim :
    (n : ℕ) (b : Bool) (x y : XhrIo)
    → Counted n x
    → (b ≡ false → Counted (n + 1) y)
    → Counted (n + one (not b)) (or_same x (if b then none else some y))
send_elim n true x y kx ky = subst (λ m. Counted m x) (omega arith) kx
send_elim n false x y kx ky = ky refl

send-Counted :
    (w : Browser) (limit : ℕ) (uri method : String) (n : ℕ) (x : XhrIo)
    → Counted n x
    → Counted (n + one (not x.requests)) (or_same x (send w limit uri method x))
unfolding send
send-Counted w limit uri method n x k =
    let x₁ = started uri method x in
    let x₂ = record x₁ { opening = false } in
    send_elim n x.requests x (if w.open_throws then fail x₁ else transmit w limit x₂) k (λ r.
      (let completed : count complete x.sent + 1 ≡ n + 1 = ground (arith, r, k.busy, k.completed) in
        if_elim (Counted (n + 1)) w.open_throws (fail x₁) (transmit w limit x₂)
          (fail-Counted (n + 1) x₁ (record {
            asked = refl;
            runs = refl;
            fresh = refl;
            completed = completed;
            reasons = k.reasons;
            readied = k.readied;
          }))
          (transmit-Counted w limit (n + 1) x₂ (record {
            asked = refl;
            runs = refl;
            fresh = refl;
            completed = completed;
            reasons = k.reasons;
            readied = k.readied;
          }))))

ready-Counted :
    (w : Browser) (http : Bool) (ready_state status n : ℕ) (x : XhrIo)
    → Counted n x
    → Counted n (on_ready_state_change w http ready_state status x)
unfolding on_ready_state_change finish send_errors clean_up
ready-Counted w http ready_state status n x k = record {
  busy = ground (arith, k.busy);
  fresh = ground (arith, k.busy, k.fresh);
  completed = ground (arith, k.busy, k.fresh, k.completed);
  reasons = ground (arith, k.busy, k.fresh, k.reasons);
  readied = ground (arith, k.busy, k.fresh, k.readied);
}

abort-Counted : (n : ℕ) (x : XhrIo) → Counted n x → Counted n (abort_request x)
unfolding abort_request clean_up
abort-Counted n x k = record {
  busy = ground (arith, k.busy);
  fresh = ground (arith, k.busy, k.fresh);
  completed = ground (arith, k.busy, k.fresh, k.completed);
  reasons = ground (arith, k.busy, k.fresh, k.reasons);
  readied = ground (arith, k.busy, k.fresh, k.readied);
}

time_out-Counted : (n : ℕ) (x : XhrIo) → Counted n x → Counted n (time_out x)
unfolding time_out
time_out-Counted n x k =
    if_elim (Counted n) x.requests (abort_request (dispatch timeout x)) x
      (abort-Counted n (dispatch timeout x) (record {
        busy = k.busy;
        fresh = k.fresh;
        completed = ground (arith, k.completed);
        reasons = ground (arith, k.reasons);
        readied = ground (arith, k.readied);
      }))
      k

step-Counted : (i : Input) (n : ℕ) (x : XhrIo) → Counted n x → Counted (n + starts i x) (step i x)
unfolding step starts
step-Counted (call_send w limit uri method) n x k = send-Counted w limit uri method n x k
step-Counted (call_ready w http ready_state status) n x k =
    subst (λ m. Counted m (on_ready_state_change w http ready_state status x)) (omega arith)
      (ready-Counted w http ready_state status n x k)
step-Counted call_abort n x k =
    subst (λ m. Counted m (abort_request x)) (omega arith) (abort-Counted n x k)
step-Counted call_time_out n x k =
    subst (λ m. Counted m (time_out x)) (omega arith) (time_out-Counted n x k)

-- The object after a list of inputs, and the number of requests that they started.
pub run : List Input → XhrIo → XhrIo
run [] x = x
run (i ∷ is) x = run is (step i x)

pub started_by : List Input → XhrIo → ℕ
started_by [] x = 0
started_by (i ∷ is) x = starts i x + started_by is (step i x)

run-Counted_from :
    (is : List Input) (n : ℕ) (x : XhrIo) → Counted n x → Counted (n + started_by is x) (run is x)
unfolding run started_by
run-Counted_from [] n x k = subst (λ m. Counted m x) (omega arith) k
run-Counted_from (i ∷ is) n x k =
    subst (λ m. Counted m (run is (step i x))) (omega arith)
      (run-Counted_from is (n + starts i x) (step i x) (step-Counted i n x k))

-- After any inputs a new object has told of each request that they started, but the one that is
-- active, that it is complete, once; for each it gave one reason, success, error or abort, and it
-- then told once that it is ready.
run-Counted : (is : List Input) → Counted (started_by is new_xhr) (run is new_xhr)
run-Counted is =
    subst (λ m. Counted m (run is new_xhr)) (omega arith)
      (run-Counted_from is 0 new_xhr (record {
        busy = refl;
        fresh = λ e. refl;
        completed = omega arith;
        reasons = omega arith;
        readied = refl;
      }))
