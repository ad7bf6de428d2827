-- ===== src/Prompt/Keys.antt =====
-- Keyboard events (`Aj` to `Ej`, `Jj` to `Oj`): which keys fire a key press, and the handler that
-- turns the browser's key events into one event for each key.
pub mod Handler
pub mod Codes
use demolition_app.Base.{
  ℕ, zero, suc, ◌+◌, ◌≤◌, Bool, true, false, not, ◌&&◌, ◌||◌, Option, some, none, List, [], ◌∷◌,
  ltb, leb, ◌==◌, if◌then◌else◌,
}

-- What the script asks of the user agent: `E`, `gc`, `ic`, `D`, `fc`, `kc`, and `F("525")`.
pub record Browser : Type 0 where
  pub webkit : Bool
  pub edge : Bool
  pub gecko : Bool
  pub ie : Bool
  pub opera : Bool
  pub mac : Bool
  pub is_525 : Bool

-- A `switch` whose cases share one result.
pub one_of : ℕ → List ℕ → Bool
one_of n [] = false
one_of n (m ∷ ms) = n == m || one_of n ms

-- `Ej`: Gecko's key codes.
pub normalize_gecko : ℕ → ℕ
normalize_gecko a =
    if a == 61
    then 187
    else if a == 59
    then 186
    else if a == 173
    then 189
    else if a == 224
    then 91
    else if a == 0
    then 224
    else a

-- `Cj`
pub normalize : Browser → ℕ → ℕ
unfolding normalize_gecko
normalize w a =
    if w.gecko
    then normalize_gecko a
    else if w.mac && w.webkit
    then if a == 93 then 91 else a
    else a

-- `Bj`
pub is_character_key : Browser → ℕ → Bool
is_character_key w a =
    leb 48 a && leb a 57
    || leb 96 a && leb a 106
    || leb 65 a && leb a 90
    || (w.webkit || w.edge) && a == 0
    || one_of a (
        32 ∷ 43 ∷ 63 ∷ 64 ∷ 107 ∷ 109 ∷ 110 ∷ 111 ∷ 186 ∷ 59 ∷ 189 ∷ 187 ∷ 61 ∷ 188 ∷ 190 ∷ 191
        ∷ 192 ∷ 222 ∷ 219 ∷ 220 ∷ 221 ∷ [])

-- A key code of the handler's state, which is -1 where none is known.
abbrev pub Code : Type 0
Code = Option ℕ

abbrev pub is_code : Code → ℕ → Bool
is_code none n = false
is_code (some m) n = m == n

abbrev pub normalize_code : Browser → Code → Code
normalize_code w none = none
normalize_code w (some n) = some (normalize w n)

pub record Modifiers : Type 0 where
  pub shift : Bool
  pub ctrl : Bool
  pub alt : Bool
  pub meta : Bool

-- The test `if(!ic){…}` of `Dj`.
held_blocks : Browser → Code → Modifiers → Bool
held_blocks w held m =
    let b = normalize_code w held in
    not w.gecko
    && ((not m.shift || w.mac) && (is_code b 17 || is_code b 18 || w.mac && is_code b 91)
        || w.mac && is_code b 16 && (m.ctrl || m.meta))

-- What `D&&d&&b==a` compares: `b` has been normalized except in Gecko.
abbrev held_code : Browser → Code → Code
held_code w held = if w.gecko then held else normalize_code w held

-- `Dj`
pub fires_key_press : Browser → ℕ → Code → Modifiers → Bool
unfolding held_blocks
fires_key_press w a held m =
    if w.webkit && not w.is_525
    then true
    else if w.mac && m.alt
    then is_character_key w a
    else if m.alt && not m.ctrl
    then false
    else if held_blocks w held m
    then false
    else if (w.webkit || w.edge)
        && m.ctrl
        && m.shift
        && one_of a (220 ∷ 219 ∷ 221 ∷ 192 ∷ 186 ∷ 189 ∷ 187 ∷ 188 ∷ 190 ∷ 191 ∷ 222 ∷ [])
    then false
    else if w.ie && m.ctrl && is_code (held_code w held) a
    then false
    else if a == 13
    then if w.gecko then if m.meta || m.alt then false else not (m.shift && m.ctrl) else true
    else if a == 27
    then not (w.webkit || w.edge || w.gecko)
    else if w.gecko && (m.ctrl || m.alt || m.meta)
    then false
    else is_character_key w a

-- `Aj`
pub is_text_modifying : Browser → ℕ → Modifiers → Bool
is_text_modifying w key_code m =
    if m.alt && not m.ctrl || m.meta || leb 112 key_code && leb key_code 123
    then false
    else if one_of key_code (
        18 ∷ 20 ∷ 93 ∷ 17 ∷ 40 ∷ 35 ∷ 27 ∷ 36 ∷ 45 ∷ 37 ∷ 224 ∷ 91 ∷ 144 ∷ 12 ∷ 34 ∷ 33 ∷ 19 ∷ 255
        ∷ 44 ∷ 39 ∷ 145 ∷ 16 ∷ 38 ∷ 252 ∷ 92 ∷ [])
    then false
    else if key_code == 0
    then not w.gecko
    else ltb key_code 166 || ltb 183 key_code
