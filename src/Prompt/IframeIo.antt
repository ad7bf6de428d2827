-- ===== src/Prompt/IframeIo.antt =====
-- The request object `bm`, which sends a form into a hidden frame.
pub mod Requests
mod Examples
use demolition_app.Base.{
  ℕ, zero, suc, ◌+◌, ◌-◌, ◌==◌, Bool, true, false, not, ◌&&◌, ◌||◌, Option, some, none,
  if◌then◌else◌,
}

-- What is known of the browser: `D&&!F("11")`, an old one that tells of a frame by its state;
-- `fc&&!E`, one that first loads an empty page; `ic`, one that may fail silently.
pub record Browser : Type 0 where
  pub old : Bool
  pub empty_first : Bool
  pub silent : Bool

-- `Ia`, `Ef`, `Ai`, `yj`, whether there is a form `xa` and a frame `fa`, whether the object listens
-- to the frame, the length of `$j`, whether `Xd` runs, the number of timeouts that will call `Ko`,
-- and how many requests were sent and events of each type were dispatched.
pub record IframeIo : Type 0 where
  pub active : Bool
  pub complete : Bool
  pub success : Bool
  pub error_handled : Bool
  pub form : Bool
  pub frame : Bool
  pub listens : Bool
  pub discarded : ℕ
  pub disposing : Bool
  pub checks : ℕ
  pub requests : ℕ
  pub completes : ℕ
  pub successes : ℕ
  pub errors : ℕ
  pub aborts : ℕ
  pub readies : ℕ

-- `new bm`
pub new_io : IframeIo
new_io = record {
  active = false;
  complete = false;
  success = false;
  error_handled = false;
  form = false;
  frame = false;
  listens = false;
  discarded = 0;
  disposing = false;
  checks = 0;
  requests = 0;
  completes = 0;
  successes = 0;
  errors = 0;
  aborts = 0;
  readies = 0;
}

-- `Im`
pub dispose_frames : IframeIo → IframeIo
dispose_frames x = record x { disposing = false; discarded = 0 }

-- `im`: the frame is kept for two seconds, or `Im` disposes of it at once.
pub schedule_disposal : Browser → IframeIo → IframeIo
schedule_disposal b x =
    let later = b.silent || b.empty_first in
    let kept = if x.frame then suc x.discarded else x.discarded in
    record x { frame = false; disposing = later; discarded = if later then kept else 0 }

-- What the page that the frame has loaded answers: its text can not be read, the check `Lm` of
-- a subclass refuses it, or neither.
pub data Content : Type 0 where
  unreadable refused good : Content

-- `react` is what a listener of "ready" does.
module _ (b : Browser) (react : IframeIo → IframeIo) where
  -- `hm`
  pub make_ready : IframeIo → IframeIo
  unfolding schedule_disposal
  make_ready x₀ =
      let x = record (schedule_disposal b x₀) { form = false } in
      react (record x { readies = suc x.readies })

  -- `em`
  pub handle_error : IframeIo → IframeIo
  unfolding make_ready
  handle_error x₀ =
      let x = record x₀ {
        success = false;
        active = false;
        complete = true;
        completes = suc x₀.completes;
        errors = suc x₀.errors;
      } in
      if x₀.error_handled then x₀ else record (make_ready x) { error_handled = true }

  -- `send`, which throws while a request is active; `fails` tells that submitting the form throws.
  pub send : Bool → IframeIo → Option IframeIo
  unfolding handle_error
  send fails x =
      let sent = record x {
        form = true;
        active = true;
        complete = false;
        frame = true;
        listens = true;
        error_handled = false;
        requests = suc x.requests;
      } in
      let failed = handle_error (record sent { listens = false }) in
      let watched = record sent {
        checks = if b.silent && not b.old then suc x.checks else x.checks;
      } in
      if x.active then none else if fails then some failed else some watched

  -- `abort`
  pub abort : IframeIo → IframeIo
  unfolding make_ready
  abort x =
      let stopped = record x {
        listens = false;
        success = false;
        active = false;
        complete = false;
        aborts = suc x.aborts;
      } in
      if x.active then make_ready stopped else x

  -- `A`
  pub dispose : IframeIo → IframeIo
  unfolding abort schedule_disposal
  dispose x₀ =
      let x = abort x₀ in
      let freed = if x.frame then schedule_disposal b x else x in record freed { form = false }

  -- `Vf`
  pub load : Content → IframeIo → IframeIo
  unfolding handle_error make_ready
  load unreadable x = handle_error (record x { complete = true; active = false })
  load refused x = handle_error (record x { complete = true; active = false })
  load good x = make_ready (record x {
    complete = true;
    active = false;
    success = true;
    completes = suc x.completes;
    successes = suc x.successes;
  })

  -- `Ak`, for a frame whose state is "complete" or not; `denied` tells that its page can not be
  -- read, `offline` that it is empty and the browser has no network.
  pub on_ready_state_change : Bool → Bool → Bool → Content → IframeIo → IframeIo
  unfolding load
  on_ready_state_change is_complete offline denied c x =
      let y = record x { listens = false } in
      let read = if denied then handle_error y else if offline then handle_error y else load c y in
      if x.listens && is_complete then read else x

  -- `ci`; `empty` tells that the frame shows the empty page.
  pub on_load : Bool → Content → IframeIo → IframeIo
  unfolding load
  on_load empty c x =
      let loaded = load c (record x { listens = false }) in
      if x.listens && (not b.empty_first || not empty) then loaded else x

  -- `Ko`, when one of its timeouts runs out; `lost` tells that the frame has a page with no address.
  pub check_silent_error : Bool → IframeIo → IframeIo
  unfolding handle_error
  check_silent_error lost x =
      let y = record x { checks = x.checks - 1 } in
      if x.checks == 0
      then x
      else if x.active
      then if lost then handle_error (record y { listens = false }) else x
      else y
