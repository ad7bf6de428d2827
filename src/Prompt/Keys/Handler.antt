-- ===== src/Prompt/Keys/Handler.antt =====
-- The key handler (`Jj`): its state over keydown, keypress and keyup, and the events it sends.
pub mod Repeats
mod Examples
use demolition_app.Base.{
  ℕ, zero, suc, ◌+◌, ◌-◌, ◌≤◌, String, Bool, true, false, not, ◌&&◌, ◌||◌, Option, some, none, List,
  [], ◌∷◌, ltb, leb, ◌==◌, if◌then◌else◌, str_eq,
}
use demolition_app.Prompt.Keys.{
  Browser, Modifiers, Code, is_code, normalize, normalize_code, is_character_key, fires_key_press,
}

pub data Kind : Type 0 where
  keydown keypress keyup : Kind

-- What the handler reads of a browser event.
pub record Event : Type 0 where
  pub kind : Kind
  pub key_code : ℕ
  pub char_code : ℕ
  pub key_identifier : String
  pub modifiers : Modifiers

-- `fb`, `md` and `fj`
pub record Handler : Type 0 where
  pub last_key : Code
  pub key_code : Code
  pub alt_key : Bool

-- The event that is sent (`Oj`).
pub record KeyEvent : Type 0 where
  pub key_code : Code
  pub char_code : ℕ
  pub repeat : Bool
  pub alt_key : Bool

-- A table of codes, `a in table ? table[a] : …`
pub find_code : ℕ → List (ℕ × ℕ) → Option ℕ
find_code a [] = none
find_code a ((key, code) ∷ rest) = if a == key then some code else find_code a rest

-- `Kj`: Safari's codes of function keys.
pub safari_keys : List (ℕ × ℕ)
safari_keys =
    (3, 13)
    ∷ (12, 144)
    ∷ (63232, 38)
    ∷ (63233, 40)
    ∷ (63234, 37)
    ∷ (63235, 39)
    ∷ (63236, 112)
    ∷ (63237, 113)
    ∷ (63238, 114)
    ∷ (63239, 115)
    ∷ (63240, 116)
    ∷ (63241, 117)
    ∷ (63242, 118)
    ∷ (63243, 119)
    ∷ (63244, 120)
    ∷ (63245, 121)
    ∷ (63246, 122)
    ∷ (63247, 123)
    ∷ (63248, 44)
    ∷ (63272, 46)
    ∷ (63273, 36)
    ∷ (63275, 35)
    ∷ (63276, 33)
    ∷ (63277, 34)
    ∷ (63289, 144)
    ∷ (63302, 45)
    ∷ []

-- `Lj`: the codes of key identifiers.
pub identifiers : List (String × ℕ)
identifiers =
    ("Up", 38)
    ∷ ("Down", 40)
    ∷ ("Left", 37)
    ∷ ("Right", 39)
    ∷ ("Enter", 13)
    ∷ ("F1", 112)
    ∷ ("F2", 113)
    ∷ ("F3", 114)
    ∷ ("F4", 115)
    ∷ ("F5", 116)
    ∷ ("F6", 117)
    ∷ ("F7", 118)
    ∷ ("F8", 119)
    ∷ ("F9", 120)
    ∷ ("F10", 121)
    ∷ ("F11", 122)
    ∷ ("F12", 123)
    ∷ ("U+007F", 46)
    ∷ ("Home", 36)
    ∷ ("End", 35)
    ∷ ("PageUp", 33)
    ∷ ("PageDown", 34)
    ∷ ("Insert", 45)
    ∷ []

pub find_identifier : String → List (String × ℕ) → Option ℕ
find_identifier name [] = none
find_identifier name ((key, code) ∷ rest) =
    if str_eq name key then some code else find_identifier name rest

abbrev or_code : Option ℕ → Code → Code
or_code none d = d
or_code (some n) d = some n

abbrev is_keypress : Kind → Bool
is_keypress keypress = true
is_keypress _ = false

-- `Nj`
abbrev saves_alt : Browser → Bool
saves_alt w = w.mac && w.gecko

-- `Mj`
abbrev pub sends_keydown : Browser → Bool
sends_keydown w = not w.webkit || w.is_525

-- `d` and `e` of `handleEvent`, before the key code is normalized.
raw_key : Browser → Handler → Event → Code
raw_key w s e =
    if w.ie && is_keypress e.kind
    then s.key_code
    else if (w.webkit || w.edge) && is_keypress e.kind
    then s.key_code
    else if w.opera && not w.webkit
    then s.key_code
    else let d : Code = if e.key_code == 0 then s.key_code else some e.key_code in
      if w.mac && e.char_code == 63 && is_code d 224 then some 191 else d

-- `Bj(d)` at the handler's code; -1 is no character key.
abbrev is_character : Browser → Code → Bool
is_character w none = false
is_character w (some n) = is_character_key w n

char_of : Browser → Handler → Event → ℕ
char_of w s e =
    if w.ie && is_keypress e.kind
    then if not (is_code s.key_code 13) && not (is_code s.key_code 27) then e.key_code else 0
    else if (w.webkit || w.edge) && is_keypress e.kind
    then if ltb e.char_code 63232 && is_character w s.key_code then e.char_code else 0
    else if w.opera && not w.webkit
    then if is_character w s.key_code then e.key_code else 0
    else e.char_code

-- The code `g` that is sent, from the normalized code `d`.
sent_code : Event → Code → Code
sent_code e none = none
sent_code e (some d) =
    if d == 0
    then or_code (find_identifier e.key_identifier identifiers) (some 0)
    else let table = find_code d safari_keys in
      if leb 63232 d && (elim table [ none ↦ false | some _ ↦ true ])
      then table
      else if d == 25 && e.modifiers.shift
      then some 9
      else some d

pub key_of : Browser → Handler → Event → Code
unfolding raw_key sent_code
key_of w s e = sent_code e (normalize_code w (raw_key w s e))

alt_of : Browser → Handler → Event → Bool
alt_of w s e =
    if (w.ie || w.webkit || w.edge) && is_keypress e.kind
    then e.modifiers.alt
    else if w.opera && not w.webkit
    then e.modifiers.alt
    else if saves_alt w && is_keypress e.kind
    then s.alt_key
    else e.modifiers.alt

abbrev same_code : Code → Code → Bool
same_code none none = true
same_code none (some _) = false
same_code (some _) none = false
same_code (some m) (some n) = m == n

-- `Dj(g, …)`; -1 is no code of a key that a `switch` or `Bj` names.
fires : Browser → Code → Code → Modifiers → Bool
fires w none held m = w.webkit && not w.is_525
fires w (some g) held m = fires_key_press w g held m

-- The test of Gecko, which sends no event for a key press that it should not have fired.
suppressed : Browser → Handler → Event → Code → Bool → Bool
unfolding fires
suppressed w s e g alt =
    w.gecko
    && sends_keydown w
    && is_keypress e.kind
    && not (fires w g s.last_key (record e.modifiers { alt = alt }))

sent_event : Browser → Handler → Event → KeyEvent
sent_event w s e = record {
  key_code = key_of w s e;
  char_code = char_of w s e;
  repeat = same_code (key_of w s e) s.last_key;
  alt_key = alt_of w s e;
}

-- `handleEvent`: the new state, and the event that is sent, if one is.
pub handle_event : Browser → Handler → Event → Handler × Option KeyEvent
unfolding suppressed sent_event
handle_event w s e =
    if suppressed w s e (key_of w s e) (alt_of w s e)
    then (s, none)
    else (record s { last_key = key_of w s e }, some (sent_event w s e))

abbrev reset : Handler → Handler
reset s = record s { last_key = none; key_code = none }

-- The two corrections at the start of `Qj`.
released : Browser → Handler → Event → Handler
released w s e =
    let m = e.modifiers in
    if (w.webkit || w.edge)
      && (is_code s.last_key 17 && not m.ctrl
          || is_code s.last_key 18 && not m.alt
          || w.mac && is_code s.last_key 91 && not m.meta)
    then reset s
    else s

held : Handler → Event → Handler
held s e =
    let m = e.modifiers in
    if not (same_code s.last_key none)
    then s
    else if m.ctrl && not (e.key_code == 17)
    then record s { last_key = some 17 }
    else if m.alt && not (e.key_code == 18)
    then record s { last_key = some 18 }
    else if m.meta && not (e.key_code == 91)
    then record s { last_key = some 91 }
    else s

-- `Qj`, the listener of keydown.
pub on_keydown : Browser → Handler → Event → Handler × Option KeyEvent
unfolding released held
on_keydown w s₀ e =
    let s = held (released w s₀ e) e in
    if sends_keydown w && not (fires_key_press w e.key_code s.last_key e.modifiers)
    then handle_event w s e
    else (
      record s {
        key_code = some (normalize w e.key_code);
        alt_key = if saves_alt w then e.modifiers.alt else s.alt_key;
      },
      none,
    )

-- `nr`, the listener of keyup.
pub on_keyup : Handler → Event → Handler
on_keyup s e = record s { last_key = none; key_code = none; alt_key = e.modifiers.alt }

-- `detach` leaves the handler with no key.
pub detach : Handler → Handler
detach s = record s { last_key = none; key_code = none }
