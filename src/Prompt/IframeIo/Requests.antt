-- ===== src/Prompt/IframeIo/Requests.antt =====
-- How the requests end.
use demolition_app.Base.{
  suc, ◌+◌, ◌-◌, ◌≡◌, ◌&&◌, ◌||◌, ◌==◌, not, refl, sym, Bool, true, false, Option, some, none, List,
  [], ◌∷◌, if_elim, if_cases, if◌then◌else◌, arith,
}
use demolition_app.Prompt.IframeIo.{
  Browser, IframeIo, new_io, dispose_frames, schedule_disposal, Content, unreadable, refused, good,
  make_ready, handle_error, send, abort, dispose, load, on_ready_state_change, on_load,
  check_silent_error,
}

pub data Input : Type 0 where
  sends : Bool → Input
  aborts disposes disposes_frames : Input
  changes_state : Bool → Bool → Bool → Content → Input
  loads : Bool → Content → Input
  checks : Bool → Input

abbrev kept : IframeIo → Option IframeIo → IframeIo
kept x none = x
kept x (some y) = y

-- One call, event or timeout, with listeners that do not call back; a `send` that throws changes
-- nothing.
pub step : Browser → Input → IframeIo → IframeIo
step b (sends fails) x = kept x (send b (λ y. y) fails x)
step b aborts x = abort b (λ y. y) x
step b disposes x = dispose b (λ y. y) x
step b disposes_frames x = dispose_frames x
step b (changes_state is_complete offline denied c) x =
    on_ready_state_change b (λ y. y) is_complete offline denied c x
step b (loads empty c) x = on_load b (λ y. y) empty c x
step b (checks lost) x = check_silent_error b (λ y. y) lost x

pub run : Browser → List Input → IframeIo → IframeIo
run b [] x = x
run b (i ∷ is) x = run b is (step b i x)

-- The object has a frame and a form exactly while a request is active, and listens to the frame
-- only then; an error is still to be handled while a request is active. Of the requests that were
-- sent all but the active one are ready again, each after it was aborted or completed, and each of
-- these with success or an error.
pub record IsSettled (x : IframeIo) : Type 0 where
  pub framed : x.frame ≡ x.active
  pub formed : x.form ≡ x.active
  pub heard : x.listens ≡ true → x.active ≡ true
  pub waits : x.active ≡ true → x.error_handled ≡ false
  pub ready : x.requests ≡ (if x.active then suc x.readies else x.readies)
  pub ended : x.readies ≡ x.completes + x.aborts
  pub judged : x.completes ≡ x.successes + x.errors

-- A request is about to end.
record IsPending (x : IframeIo) : Type 0 where
  pub waits : x.error_handled ≡ false
  pub ready : x.requests ≡ suc x.readies
  pub ended : x.readies ≡ x.completes + x.aborts
  pub judged : x.completes ≡ x.successes + x.errors

pending : (x : IframeIo) → IsSettled x → x.active ≡ true → IsPending x
pending x s e = record {
  waits = s.waits e;
  ready = ground (arith, s.ready, e);
  ended = s.ended;
  judged = s.judged;
}

-- How a part of the code leaves the parts that disposal does not touch.
module _ (b : Browser) where
  make_ready-IsSettled :
      (x : IframeIo)
      → x.active ≡ false
      → x.listens ≡ false
      → x.requests ≡ suc x.readies
      → suc x.readies ≡ x.completes + x.aborts
      → x.completes ≡ x.successes + x.errors
      → IsSettled (make_ready b (λ y. y) x)
  unfolding make_ready schedule_disposal
  make_ready-IsSettled x a l r e j = record {
    framed = sym a;
    formed = sym a;
    heard = λ h. absurd (ground (arith, h, l));
    waits = λ h. absurd (ground (arith, h, a));
    ready = ground (arith, a, r);
    ended = e;
    judged = j;
  }

  handle_error-IsSettled :
      (x : IframeIo) → x.listens ≡ false → IsPending x → IsSettled (handle_error b (λ y. y) x)
  unfolding handle_error make_ready schedule_disposal
  handle_error-IsSettled x l p =
      if_cases IsSettled x.error_handled _ _ (λ h. absurd (ground (arith, h, p.waits)))
        (λ h. after_error (make_ready b (λ y. y) failed) refl (
          make_ready-IsSettled failed refl l p.ready (omega (arith, p.ended))
            (omega (arith, p.judged))))
    where
      failed : IframeIo
      failed = record x {
        success = false;
        active = false;
        complete = true;
        completes = suc x.completes;
        errors = suc x.errors;
      }

      after_error :
          (y : IframeIo)
          → y.active ≡ false
          → IsSettled y
          → IsSettled (record y { error_handled = true })
      after_error y a s = record {
        framed = s.framed;
        formed = s.formed;
        heard = s.heard;
        waits = λ h. absurd (ground (arith, h, a));
        ready = s.ready;
        ended = s.ended;
        judged = s.judged;
      }

  load-IsSettled :
      (c : Content) (x : IframeIo)
      → x.listens ≡ false
      → IsPending x
      → IsSettled (load b (λ y. y) c x)
  unfolding load
  load-IsSettled unreadable x l p =
      handle_error-IsSettled (record x { complete = true; active = false }) l
        (record { waits = p.waits; ready = p.ready; ended = p.ended; judged = p.judged })
  load-IsSettled refused x l p =
      handle_error-IsSettled (record x { complete = true; active = false }) l
        (record { waits = p.waits; ready = p.ready; ended = p.ended; judged = p.judged })
  load-IsSettled good x l p =
      make_ready-IsSettled
        (record x {
          complete = true;
          active = false;
          success = true;
          completes = suc x.completes;
          successes = suc x.successes;
        })
        refl l p.ready (omega (arith, p.ended)) (omega (arith, p.judged))

  abort-IsSettled : (x : IframeIo) → IsSettled x → IsSettled (abort b (λ y. y) x)
  unfolding abort
  abort-IsSettled x s =
      if_cases IsSettled x.active _ _
        (λ e.
          make_ready-IsSettled
            (record x {
              listens = false;
              success = false;
              active = false;
              complete = false;
              aborts = suc x.aborts;
            })
            refl refl (pending x s e).ready (omega (arith, s.ended)) s.judged)
        (λ e. s)

  abort-active : (x : IframeIo) → (abort b (λ y. y) x).active ≡ false
  unfolding abort make_ready schedule_disposal
  abort-active x = if_cases (λ (y : IframeIo). y.active ≡ false) x.active _ _ (λ e. refl) (λ e. e)

  send-IsSettled :
      (fails : Bool) (x : IframeIo) → IsSettled x → IsSettled (kept x (send b (λ y. y) fails x))
  unfolding send
  send-IsSettled fails x s =
      if_cases (λ o. IsSettled (kept x o)) x.active _ _ (λ e. s)
        (λ e.
          if_elim (λ o. IsSettled (kept x o)) fails _ _
            (handle_error-IsSettled
              (record x {
                form = true;
                active = true;
                complete = false;
                frame = true;
                listens = false;
                error_handled = false;
                requests = suc x.requests;
              })
              refl
              (record {
                waits = refl;
                ready = ground (arith, s.ready, e);
                ended = s.ended;
                judged = s.judged;
              }))
            (record {
              framed = refl;
              formed = refl;
              heard = λ h. refl;
              waits = λ h. refl;
              ready = ground (arith, s.ready, e);
              ended = s.ended;
              judged = s.judged;
            }))

  -- When the object listens to a frame, a request is about to end.
  heard-IsPending :
      (x : IframeIo) → IsSettled x → x.listens ≡ true → IsPending (record x { listens = false })
  heard-IsPending x s h =
      let p = pending x s (s.heard h) in
      record { waits = p.waits; ready = p.ready; ended = p.ended; judged = p.judged }

  on_ready_state_change-IsSettled :
      (is_complete offline denied : Bool) (c : Content) (x : IframeIo)
      → IsSettled x
      → IsSettled (on_ready_state_change b (λ y. y) is_complete offline denied c x)
  unfolding on_ready_state_change
  on_ready_state_change-IsSettled is_complete offline denied c x s =
      if_cases IsSettled (x.listens && is_complete) _ _
        (λ e.
          let p = heard-IsPending x s (ground (arith, e)) in
          if_elim IsSettled denied _ _ (handle_error-IsSettled _ refl p) (
            if_elim IsSettled offline _ _ (handle_error-IsSettled _ refl p)
              (load-IsSettled c _ refl p)))
        (λ e. s)

  on_load-IsSettled :
      (empty : Bool) (c : Content) (x : IframeIo)
      → IsSettled x
      → IsSettled (on_load b (λ y. y) empty c x)
  unfolding on_load
  on_load-IsSettled empty c x s =
      if_cases IsSettled (x.listens && (not b.empty_first || not empty)) _ _
        (λ e. load-IsSettled c _ refl (heard-IsPending x s (ground (arith, e)))) (λ e. s)

  check-IsSettled :
      (lost : Bool) (x : IframeIo) → IsSettled x → IsSettled (check_silent_error b (λ y. y) lost x)
  unfolding check_silent_error
  check-IsSettled lost x s = if_elim IsSettled (x.checks == 0) _ _ s (
      if_cases IsSettled x.active _ _
        (λ e.
          if_elim IsSettled lost _ _
            (let p = pending x s e in
              handle_error-IsSettled (record x { checks = x.checks - 1; listens = false }) refl
                (record { waits = p.waits; ready = p.ready; ended = p.ended; judged = p.judged }))
            s)
        (λ e. record {
          framed = s.framed;
          formed = s.formed;
          heard = s.heard;
          waits = s.waits;
          ready = s.ready;
          ended = s.ended;
          judged = s.judged;
        }))

  dispose-IsSettled : (x : IframeIo) → IsSettled x → IsSettled (dispose b (λ y. y) x)
  unfolding dispose
  dispose-IsSettled x s = freed (abort b (λ y. y) x) (abort-IsSettled x s) (abort-active x)
    where
      freed :
          (y : IframeIo)
          → IsSettled y
          → y.active ≡ false
          → IsSettled (record (if y.frame then schedule_disposal b y else y) { form = false })
      freed y s a =
          if_cases (λ (z : IframeIo). IsSettled (record z { form = false })) y.frame _ _
            (λ h. absurd (ground (arith, h, a, s.framed)))
            (λ h. record {
              framed = s.framed;
              formed = sym a;
              heard = s.heard;
              waits = s.waits;
              ready = s.ready;
              ended = s.ended;
              judged = s.judged;
            })

step-IsSettled : (b : Browser) (i : Input) (x : IframeIo) → IsSettled x → IsSettled (step b i x)
unfolding step dispose_frames
step-IsSettled b (sends fails) x s = send-IsSettled b fails x s
step-IsSettled b aborts x s = abort-IsSettled b x s
step-IsSettled b disposes x s = dispose-IsSettled b x s
step-IsSettled b disposes_frames x s = record {
  framed = s.framed;
  formed = s.formed;
  heard = s.heard;
  waits = s.waits;
  ready = s.ready;
  ended = s.ended;
  judged = s.judged;
}
step-IsSettled b (changes_state is_complete offline denied c) x s =
    on_ready_state_change-IsSettled b is_complete offline denied c x s
step-IsSettled b (loads empty c) x s = on_load-IsSettled b empty c x s
step-IsSettled b (checks lost) x s = check-IsSettled b lost x s

run-IsSettled_from :
    (b : Browser) (is : List Input) (x : IframeIo) → IsSettled x → IsSettled (run b is x)
unfolding run
run-IsSettled_from b [] x s = s
run-IsSettled_from b (i ∷ is) x s = run-IsSettled_from b is (step b i x) (step-IsSettled b i x s)

-- Whatever is called and whatever the frame tells, with listeners that do not call back, the object
-- has a frame and a form exactly while a request is active, and listens to the frame only then. All
-- requests but the active one are ready again, each once, after it was aborted or completed, and
-- each of the completed ones succeeded or failed.
run-IsSettled : (b : Browser) (is : List Input) → IsSettled (run b is new_io)
unfolding new_io
run-IsSettled b is = run-IsSettled_from b is new_io (record {
  framed = refl;
  formed = refl;
  heard = λ h. h;
  waits = λ h. refl;
  ready = refl;
  ended = refl;
  judged = refl;
})

-- The listener of "ready" that sends the next request.
pub send_next : Browser → IframeIo → IframeIo
send_next b x = kept x (send b (λ y. y) false x)

send_next-active : (b : Browser) (x : IframeIo) → x.active ≡ false → (send_next b x).active ≡ true
unfolding send_next send
send_next-active b x a =
    if_cases (λ o. (kept x o).active ≡ true) x.active _ _ (λ e. absurd (ground (arith, e, a)))
      (λ e. refl)

-- When the listener of "ready" sends the next request after an error, then that request is active,
-- and no error of it is handled.
pub handle_error-send_next :
    (b : Browser) (react : IframeIo → IframeIo) (x : IframeIo)
    → x.error_handled ≡ false
    → ((handle_error b (send_next b) x).active ≡ true)
      × (handle_error b react (handle_error b (send_next b) x) ≡ handle_error b (send_next b) x)
unfolding handle_error make_ready schedule_disposal
handle_error-send_next b react x e =
    if_cases (λ y. (y.active ≡ true) × (handle_error b react y ≡ y)) x.error_handled _ _
      (λ h. absurd (ground (arith, h, e))) (λ h. (send_next-active b _ refl, refl))
