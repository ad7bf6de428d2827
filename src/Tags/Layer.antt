-- ===== src/Tags/Layer.antt =====
-- The data layer: what a page pushes, `Ch`, how it is handled, `ei`, and `push` itself.
pub mod Ids
mod Examples
use demolition_app.Base.{
  ℕ, zero, suc, ◌-◌, ltb, ◌==◌, not, Bool, true, false, if◌then◌else◌, String, str_eq, Option, none,
  some, List, [], ◌∷◌, ◌++◌, length,
}
use demolition_app.Base.Dict.{Dict, insert}

-- A value: a text, or another one, of which it is kept whether it counts as true.
pub data Value : Type 0 where
  text_value : String → Value
  opaque : Bool → Value

pub is_true : Value → Bool
is_true (text_value s) = not (str_eq s "")
is_true (opaque b) = b

-- An object: `_clear`; its own names and values; `event`; `eventModel`; `gtm.uniqueEventId` and
-- `gtm.start`, where it has them.
pub record Object : Type 0 where
  pub clears : Bool
  pub entries : Dict Value
  pub event : Option Value
  pub model : Option (Dict Value)
  pub id : Option ℕ
  pub start : Option ℕ

-- An object is a reference to it, as a number, with what it holds at the time, less the number that an
-- event of it wrote.
pub data Arg : Type 0 where
  text : String → Arg
  object : ℕ → Object → Arg
  date : ℕ → Arg
  other : Bool → Arg

-- A function, an array that names one, arguments, or an object.
pub data Message : Type 0 where
  function : ℕ → Message
  command : String → Message
  arguments : List Arg → Message
  plain : ℕ → Object → Message

pub event_entry : Option Value → Dict Value
event_entry none = []
event_entry (some e) = ("event", e) ∷ []

pub bare : Option Value → Object
unfolding event_entry
bare event = record {
  clears = false;
  entries = event_entry event;
  event = event;
  model = none;
  id = none;
  start = none;
}

-- `Ch.event`, `Ch.set` and `Ch.js`, without the name of the command.
pub of_event : List Arg → Option Object
unfolding bare
of_event (text e ∷ []) = some (bare (some (text_value e)))
of_event (text e ∷ object k o ∷ []) =
    some (record (bare (some (text_value e))) { model = some o.entries })
of_event (text e ∷ object k o ∷ a ∷ as') = none
of_event (text e ∷ text t ∷ as') = none
of_event (text e ∷ date d ∷ as') = none
of_event (text e ∷ other b ∷ as') = none
of_event (object k o ∷ as') = none
of_event (date d ∷ as') = none
of_event (other b ∷ as') = none
of_event [] = none

pub value_of : Arg → Value
value_of (text s) = text_value s
value_of (object k o) = opaque true
value_of (date d) = opaque true
value_of (other b) = opaque b

pub first_of : Option ℕ → Option ℕ → Option ℕ
first_of none b = b
first_of (some a) b = some a

-- An object with the number that is written on it, if it brings none.
pub numbered_by : Option ℕ → Object → Object
unfolding first_of
numbered_by mark o = record o { id = first_of o.id mark }

-- One value of a name, which may be that of an event.
pub set_one : String → Value → Object
unfolding bare
set_one k v = record (bare none) {
  clears = true;
  entries = (k, v) ∷ [];
  event = if str_eq k "event" then some v else none;
}

pub of_set : (ℕ → Option ℕ) → List Arg → Option Object
unfolding numbered_by set_one value_of
of_set marks (object k o ∷ []) = some (record (numbered_by (marks k) o) { clears = true })
of_set marks (text k ∷ a ∷ []) = some (set_one k (value_of a))
of_set marks (text k ∷ a ∷ b ∷ as') = none
of_set marks (text k ∷ []) = none
of_set marks (object k o ∷ a ∷ as') = none
of_set marks (date d ∷ as') = none
of_set marks (other b ∷ as') = none
of_set marks [] = none

pub of_js : List Arg → Option Object
unfolding bare
of_js (date d ∷ []) = some (record (bare (some (text_value "gtm.js"))) { start = some d })
of_js (date d ∷ a ∷ as') = none
of_js (text t ∷ as') = none
of_js (object k o ∷ as') = none
of_js (other b ∷ as') = none
of_js [] = none

pub of_arguments : (ℕ → Option ℕ) → List Arg → Option Object
unfolding of_event of_set of_js
of_arguments marks (text c ∷ as') =
    if str_eq c "event"
    then of_event as'
    else if str_eq c "set"
    then of_set marks as'
    else if str_eq c "js"
    then of_js as'
    else none
of_arguments marks (object k o ∷ as') = none
of_arguments marks (date d ∷ as') = none
of_arguments marks (other b ∷ as') = none
of_arguments marks [] = none

-- `Dh`, by the names; `eventModel`; `sequence`, the next number; the numbers that are written on objects; the
-- events that were fired with their numbers, the newest first; what was called; `bc`.
pub record Layer : Type 0 where
  pub values : Dict Value
  pub model : Option (Dict Value)
  pub next : ℕ
  pub marks : ℕ → Option ℕ
  pub fired : List (ℕ × Value)
  pub called : List ℕ
  pub commands : List String
  pub start : Option ℕ

-- `Ih` of each entry, where a later value of a name counts.
pub write_all : Dict Value → Dict Value → Dict Value
write_all [] d = d
write_all ((k, v) ∷ es) d = write_all es (insert k v d)

-- A number is written on an object, if the page has a reference to it.
pub put_mark : Option ℕ → ℕ → (ℕ → Option ℕ) → ℕ → Option ℕ
put_mark none n marks = marks
put_mark (some k) n marks = λ i. if k == i then some n else marks i

-- The number of an event, its own or the next one, which is written on its object; the event is fired.
pub fire_as : Option ℕ → Value → Option ℕ → Layer → Layer
unfolding put_mark
fire_as key e (some n) l = record l { fired = (n, e) ∷ l.fired }
fire_as key e none l = record l {
  fired = (l.next, e) ∷ l.fired;
  next = suc l.next;
  marks = put_mark key l.next l.marks;
}

pub fire : Option ℕ → Option Value → Option ℕ → Layer → Layer
unfolding fire_as is_true
fire key none id l = l
fire key (some e) id l = if is_true e then fire_as key e id l else l

unfoldable pub handle_object : Option ℕ → Object → Layer → Layer
unfolding write_all fire first_of
handle_object key o l =
    let w = record l { values = write_all o.entries l.values; model = o.model } in
    let f = fire key o.event o.id w in record f { start = first_of l.start o.start }

pub handle_option : Option Object → Layer → Layer
unfolding handle_object
handle_option none l = l
handle_option (some o) l = handle_object none o l

-- One turn of the loop of `ei`, which first forgets `eventModel`. What the arguments make is a new object.
unfoldable pub handle : Message → Layer → Layer
unfolding handle_option handle_object of_arguments numbered_by
handle (function f) l = record l { model = none; called = f ∷ l.called }
handle (command c) l = record l { model = none; commands = c ∷ l.commands }
handle (arguments as') l = handle_option (of_arguments l.marks as') (record l { model = none })
handle (plain k o) l =
    handle_object (some k) (numbered_by (l.marks k) o) (record l { model = none })

unfoldable pub run : List Message → Layer → Layer
unfolding handle
run [] l = l
run (m ∷ ms) l = run ms (handle m l)

-- What `push` leaves of the array: at most 300 messages, the last ones.
unfoldable pub drop {ℓ} : {A : Type ℓ} → ℕ → List A → List A
drop zero xs = xs
drop (suc n) [] = []
drop (suc n) (x ∷ xs) = drop n xs

unfoldable pub kept : List Message → List Message → List Message
unfolding drop
kept old new = drop (length (old ++ new) - 300) (old ++ new)
