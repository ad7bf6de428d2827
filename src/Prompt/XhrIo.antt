-- ===== src/Prompt/XhrIo.antt =====
-- The request object `Pf`: its state, and the events that it dispatches as a request is sent, runs,
-- fails, is aborted or times out.
pub mod Counts
use demolition_app.Base.{
  ℕ, ◌+◌, String, Bool, true, false, not, ◌&&◌, ◌||◌, Option, some, none, List, [], ◌∷◌, ◌==◌, ltb,
  if◌then◌else◌,
}

pub data XhrEvent : Type 0 where
  complete success error abort timeout ready ready_state_change : XhrEvent

-- What the browser does with a request: `open` or `send` may throw, and it may know `ontimeout`;
-- `Pi[1]` tells that it reports a local error, which only the ActiveX object has.
pub record Browser : Type 0 where
  pub open_throws : Bool
  pub send_throws : Bool
  pub own_timeout : Bool
  pub local_errors : Bool

-- `Ia`, `R` (whether there is a request), `ck`, `Bh`, `xj`, `Mi`, `Di`, `Bb`, `nd`, `Dn`, and the
-- events that were dispatched, the newest first. `$d` is true only inside of calls that end at once.
pub record XhrIo : Type 0 where
  pub active : Bool
  pub requests : Bool
  pub opening : Bool
  pub sending : Bool
  pub errors_sent : Bool
  pub native_timeout : Bool
  pub timer : Bool
  pub disposed : Bool
  pub uri : String
  pub method : String
  pub sent : List XhrEvent

-- `new Pf`
abbrev pub new_xhr : XhrIo
new_xhr = record {
  active = false;
  requests = false;
  opening = false;
  sending = false;
  errors_sent = false;
  native_timeout = false;
  timer = false;
  disposed = false;
  uri = "";
  method = "";
  sent = [];
}

-- `xe`
pub is_success : ℕ → Bool
is_success a = a == 200 || a == 201 || a == 202 || a == 204 || a == 206 || a == 304 || a == 1223

-- `$f`: the status, which is -1 until it is known.
pub status_of : ℕ → ℕ → Option ℕ
status_of ready_state status = if ltb 2 ready_state then some status else none

-- `mk`; `http` tells that the scheme of the address is http or https.
pub succeeds : Bool → Option ℕ → Bool
succeeds http none = false
succeeds http (some status) = is_success status || status == 0 && not http

abbrev pub dispatch : XhrEvent → XhrIo → XhrIo
dispatch e x = record x { sent = e ∷ x.sent }

-- `Uf`
abbrev pub clear_timeout : XhrIo → XhrIo
clear_timeout x = record x { timer = false }

-- `Xf`; `quiet` is its second argument.
pub clean_up : Bool → XhrIo → XhrIo
clean_up quiet x =
    let x' = record (clear_timeout x) { requests = false } in
    if x.requests then if quiet then x' else dispatch ready x' else x

-- `Wf`
pub send_errors : XhrIo → XhrIo
send_errors x =
    if x.errors_sent
    then x
    else dispatch error (dispatch complete (record x { errors_sent = true }))

-- `fh`
pub fail : XhrIo → XhrIo
unfolding send_errors clean_up
fail x = clean_up false (send_errors (record x { active = false }))

-- The start of `send`, before the request is opened.
abbrev pub started : String → String → XhrIo → XhrIo
started uri method x = record x {
  uri = uri;
  errors_sent = false;
  method = method;
  active = true;
  requests = true;
  opening = true;
}

-- The last part of `send`; `limit` is `tf`.
pub transmit : Browser → ℕ → XhrIo → XhrIo
unfolding fail
transmit w limit x₀ =
    let x = clear_timeout x₀ in
    let timed =
      if ltb 0 limit
      then record x { native_timeout = w.own_timeout; timer = not w.own_timeout }
      else x in
    if w.send_throws
    then fail (record timed { sending = true })
    else record timed { sending = false }

-- `send` throws when a request is active. The method is upper case already.
pub send : Browser → ℕ → String → String → XhrIo → Option XhrIo
unfolding transmit
send w limit uri method x =
    if x.requests
    then none
    else some (
        if w.open_throws
        then fail (started uri method x)
        else transmit w limit (record (started uri method x) { opening = false }))

-- `Yf`, after "readystatechange" was dispatched for a request that is done.
pub finish : Bool → Option ℕ → XhrIo → XhrIo
unfolding clean_up send_errors
finish http status x =
    let x' = record x { active = false } in
    clean_up false
      (if succeeds http status then dispatch success (dispatch complete x') else send_errors x')

-- `Yn` and `Yf`: the state of the request changed. While it is being sent, a request that is done
-- is looked at again later.
pub on_ready_state_change : Browser → Bool → ℕ → ℕ → XhrIo → XhrIo
unfolding finish
on_ready_state_change w http ready_state status x =
    let x' = dispatch ready_state_change x in
    if x.disposed || not x.active
    then x
    else if w.local_errors && ready_state == 4 && status == 2
    then x
    else if x.sending && ready_state == 4
    then x
    else if ready_state == 4
    then finish http (status_of ready_state status) x'
    else x'

-- `abort`
pub abort_request : XhrIo → XhrIo
unfolding clean_up
abort_request x =
    if x.requests && x.active
    then clean_up false (dispatch abort (dispatch complete (record x { active = false })))
    else x

-- `Cd`
pub time_out : XhrIo → XhrIo
unfolding abort_request
time_out x = if x.requests then abort_request (dispatch timeout x) else x

-- `L` and `A`
pub dispose : XhrIo → XhrIo
unfolding clean_up
dispose x =
    if x.disposed
    then x
    else if x.requests
    then clean_up true (record x { disposed = true; active = false })
    else record x { disposed = true }
