-- ===== src/Prompt/Keys/Handler/Repeats.antt =====
-- Runs of the key handler: repeats, and a whole key stroke.
use demolition_app.Base.{
  ◌≡◌, ◌≢◌, refl, Bool, true, false, Option, some, none, ==_iff, if◌then◌else◌, arith, ap, ◌∙◌, sym,
}
use demolition_app.Prompt.Keys.{Browser, Code}
use demolition_app.Prompt.Keys.Handler.{
  Event, Handler, KeyEvent, key_of, alt_of, handle_event, on_keyup, raw_key, same_code, suppressed,
  sent_event,
}

key_of-last :
    (w : Browser) (s : Handler) (e : Event) (c : Code)
    → key_of w (record s { last_key = c }) e ≡ key_of w s e
unfolding key_of raw_key
key_of-last w s e c = refl

same_code_refl : (c : Code) → same_code c c ≡ true
same_code_refl none = refl
same_code_refl (some n) = (==_iff n n).1 refl

-- What an event that is sent holds, and the state that it leaves.
record Sent (w : Browser) (s : Handler) (e : Event) (s' : Handler) (k : KeyEvent) : Type 0 where
  state : s' ≡ record s { last_key = key_of w s e }
  key : k.key_code ≡ key_of w s e
  repeats : k.repeat ≡ same_code (key_of w s e) s.last_key

-- The send, with what is sent held apart.
abbrev send : Bool → Handler → Code → KeyEvent → Handler × Option KeyEvent
send blocked s g k = if blocked then (s, none) else (record s { last_key = g }, some k)

send-some :
    (blocked : Bool) (s s' : Handler) (g : Code) (k k' : KeyEvent)
    → send blocked s g k ≡ (s', some k')
    → (s' ≡ record s { last_key = g }) × (k' ≡ k)
send-some true s s' g k k' h = cc
send-some false s s' g k k' h = ground arith

handle_event-some :
    (w : Browser) (s s' : Handler) (e : Event) (k : KeyEvent)
    → handle_event w s e ≡ (s', some k)
    → Sent w s e s' k
unfolding handle_event
handle_event-some w s s' e k h =
    let g = key_of w s e in
    let (state, sent) =
      send-some (suppressed w s e g (alt_of w s e)) s s' g (sent_event w s e) k h in
    record {
      state = state;
      key = ap (λ (j : KeyEvent). j.key_code) sent;
      repeats = ap (λ (j : KeyEvent). j.repeat) sent;
    }

-- When the same event comes again and both send, the second one is a repeat of the same key; when
-- the key goes up in between, what is then sent is no repeat, unless its code is unknown.
handle_event-repeat :
    (w : Browser) (s s' s'' : Handler) (e : Event) (k k' : KeyEvent)
    → handle_event w s e ≡ (s', some k)
    → handle_event w s' e ≡ (s'', some k')
    → (k'.repeat ≡ true) × (k'.key_code ≡ k.key_code)
handle_event-repeat w s s' s'' e k k' h h' =
    let first = handle_event-some w s s' e k h in
    let second = handle_event-some w s' s'' e k' h' in
    let key : key_of w s' e ≡ key_of w s e =
      ap (λ t. key_of w t e) first.state ∙ key_of-last w s e (key_of w s e) in
    let last : s'.last_key ≡ key_of w s e = ap (λ (t : Handler). t.last_key) first.state in
    (
      second.repeats ∙ rw (key, last) (same_code_refl (key_of w s e)),
      second.key ∙ key ∙ sym first.key,
    )

same_code-none : (c : Code) → c ≢ none → same_code c none ≡ false
same_code-none none h = absurd (h refl)
same_code-none (some n) h = refl

-- After the key went up, what is sent for the next event is no repeat, unless its code is unknown.
handle_event-on_keyup :
    (w : Browser) (s s' : Handler) (up e : Event) (k : KeyEvent)
    → handle_event w (on_keyup s up) e ≡ (s', some k)
    → k.key_code ≢ none
    → k.repeat ≡ false
unfolding on_keyup
handle_event-on_keyup w s s' up e k h known =
    let sent = handle_event-some w (on_keyup s up) s' e k h in
    sent.repeats ∙ rw (← sent.key) (same_code-none k.key_code known)
