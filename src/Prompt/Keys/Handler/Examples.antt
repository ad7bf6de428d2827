-- ===== src/Prompt/Keys/Handler/Examples.antt =====
-- The theorems of the key handler at concrete key strokes.
use demolition_app.Base.{◌≡◌, refl, Bool, true, false, some, none}
use demolition_app.Prompt.Keys.{Browser, normalize, is_character_key}
use demolition_app.Prompt.Keys.Codes.{no_modifiers}
use demolition_app.Prompt.Keys.Handler.{
  keydown, keypress, Event, Handler, KeyEvent, handle_event, on_keyup, suppressed, sent_event,
  key_of, raw_key, sent_code, char_of, alt_of, find_code, safari_keys,
}
use demolition_app.Prompt.Keys.Handler.Repeats.{}

abbrev chrome : Browser
chrome = record {
  webkit = true;
  edge = false;
  gecko = false;
  ie = false;
  opera = false;
  mac = true;
  is_525 = true;
}

abbrev press : Event
press = record {
  kind = keypress;
  key_code = 97;
  char_code = 97;
  key_identifier = "";
  modifiers = no_modifiers;
}

abbrev waiting : Handler
waiting = record { last_key = none; key_code = some 65; alt_key = false }

abbrev pressed : Handler
pressed = record { last_key = some 65; key_code = some 65; alt_key = false }

abbrev sent : Bool → KeyEvent
sent repeat = record { key_code = some 65; char_code = 97; repeat = repeat; alt_key = false }

handle_event-first : handle_event chrome waiting press ≡ (pressed, some (sent false))
unfolding handle_event suppressed sent_event key_of raw_key sent_code char_of alt_of find_code
    safari_keys normalize is_character_key
handle_event-first = refl

handle_event-again : handle_event chrome pressed press ≡ (pressed, some (sent true))
unfolding handle_event suppressed sent_event key_of raw_key sent_code char_of alt_of find_code
    safari_keys normalize is_character_key
handle_event-again = refl

handle_event-after :
    handle_event chrome (on_keyup waiting press) (record press { kind = keydown }) ≡ (
      record { last_key = some 97; key_code = none; alt_key = false },
      some (record { key_code = some 97; char_code = 97; repeat = false; alt_key = false }),
    )
unfolding handle_event on_keyup suppressed sent_event key_of raw_key sent_code char_of alt_of
    find_code safari_keys normalize is_character_key
handle_event-after = refl

abbrev lower_a : KeyEvent
lower_a = record { key_code = some 97; char_code = 97; repeat = false; alt_key = false }
