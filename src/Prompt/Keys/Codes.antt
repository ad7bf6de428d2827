-- ===== src/Prompt/Keys/Codes.antt =====
-- Which keys fire a key press, and what normalizing a key code gives.
use demolition_app.Base.{ℕ, ◌≤◌, ◌≡◌, ◌≢◌, ◌⊎◌, true, false, not, ◌&&◌, ◌||◌, none, ◌==◌, arith}
use demolition_app.Prompt.Keys.{
  Browser, Modifiers, one_of, normalize, is_character_key, fires_key_press,
}

-- Normalizing a key code again changes nothing, but for Gecko's code 0.
normalize_idem : (w : Browser) (a : ℕ) → a ≢ 0 → normalize w (normalize w a) ≡ normalize w a
unfolding normalize
normalize_idem w a h = ground arith

abbrev pub no_modifiers : Modifiers
no_modifiers = record { shift = false; ctrl = false; alt = false; meta = false }

is_character_key-13 : (w : Browser) → is_character_key w 13 ≡ false
unfolding is_character_key one_of
is_character_key-13 w = ground arith

is_character_key-27 : (w : Browser) → is_character_key w 27 ≡ false
unfolding is_character_key one_of
is_character_key-27 w = ground arith

-- With no modifier and no key held, a key press is fired for the character keys, for Enter, for
-- Escape where the browser is none of WebKit, Edge and Gecko, and for every key in a WebKit
-- before version 525, and for nothing else.
fires_key_press-plain :
    (w : Browser) (a : ℕ)
    → fires_key_press w a none no_modifiers ≡ (
        w.webkit && not w.is_525
        || is_character_key w a
        || a == 13
        || a == 27 && not (w.webkit || w.edge || w.gecko))
unfolding fires_key_press
fires_key_press-plain w a = ground (arith, is_character_key-13 w, is_character_key-27 w)

-- A character key's code is 0 or lies between the space and the quote, and is not that of the
-- right Command key.
pub is_character_key-bounds :
    (w : Browser) (a : ℕ)
    → is_character_key w a ≡ true
    → (a ≡ 0) ⊎ ((32 ≤ a) × (a ≤ 222) × (a ≢ 93))
unfolding is_character_key one_of
is_character_key-bounds w a h = ground arith

pub normalize_plain : (w : Browser) (a : ℕ) → w.gecko ≡ false → a ≢ 93 → normalize w a ≡ a
unfolding normalize
normalize_plain w a g h = ground arith
