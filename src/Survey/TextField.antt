-- ===== src/Survey/TextField.antt =====
-- The field `As` for a text, with the button that hands it in. A text is a list of code units.
pub mod Enabled
mod Examples
use demolition_app.Base.{
  ℕ, leb, ◌==◌, Bool, true, false, not, ◌&&◌, ◌||◌, if◌then◌else◌, List, [], ◌∷◌, ◌++◌,
}

abbrev pub Text : Type 0
Text = List ℕ

-- What `\s` matches.
unfoldable pub is_space : ℕ → Bool
is_space c =
    leb 9 c && leb c 13
    || c == 32
    || c == 160
    || c == 5760
    || leb 8192 c && leb c 8202
    || c == 8232
    || c == 8233
    || c == 8239
    || c == 8287
    || c == 12288
    || c == 65279

-- `nb`
unfoldable pub is_blank : Text → Bool
unfolding is_space
is_blank [] = true
is_blank (c ∷ cs) = is_space c && is_blank cs

-- `Ur`: some unit is neither a space nor one of ".,;", unless the design is the newer one.
pub has_words : Text → Bool
unfolding is_space
has_words [] = false
has_words (c ∷ cs) = not (is_space c || c == 46 || c == 44 || c == 59) || has_words cs

pub is_answer : Text → Bool → Bool
unfolding has_words
is_answer text modern = modern || has_words text

-- "skipped"
abbrev pub skipped : Text
skipped = 115 ∷ 107 ∷ 105 ∷ 112 ∷ 112 ∷ 101 ∷ 100 ∷ []

pub data FieldEvent : Type 0 where
  change focus : FieldEvent
  submit : Text → FieldEvent

-- The text; whether there is a button (`Ma` or `Ha`), whether it is `Ma`, and whether it is enabled;
-- whether the element is a text area; `Bq`; the class `has-text`; what was dispatched, with the text
-- that it has when it is handed in.
pub record TextField : Type 0 where
  pub text : Text
  pub has_button : Bool
  pub modern : Bool
  pub enabled : Bool
  pub is_area : Bool
  pub skips_blank : Bool
  pub has_text : Bool
  pub events : List FieldEvent

pub is_filled : Text → Bool
is_filled [] = false
is_filled (c ∷ cs) = true

-- `Zr`, the function that says which texts are accepted, is a parameter.
module _ (accepts : Text → Bool) where
  -- `xl`
  pub update : TextField → TextField
  unfolding is_filled
  update f = record f {
    enabled = if f.has_button then accepts f.text else f.enabled;
    has_text = is_filled f.text;
    events = f.events ++ change ∷ [];
  }

  -- `Pa`, and what the user types.
  pub set_text : Text → TextField → TextField
  unfolding update
  set_text text f = update (record f { text = text })

  pub hand_in : TextField → TextField
  hand_in f = record f { events = f.events ++ submit f.text ∷ [] }

  -- `ks`: Enter. The keys of a text area with a plain button are not heard.
  pub on_key : ℕ → TextField → TextField
  unfolding hand_in
  on_key code f =
      let hears = f.modern || f.has_button && not f.is_area in
      if hears && (code == 13 || code == 3) && (f.has_button && f.enabled) && accepts f.text
      then hand_in f
      else f

  -- `zs`
  pub on_focus : TextField → TextField
  on_focus f = record f {
    enabled = if f.has_button then accepts f.text else f.enabled;
    events = f.events ++ focus ∷ [];
  }

  -- `sl`
  pub on_click : TextField → TextField
  unfolding set_text hand_in is_blank
  on_click f =
      if f.has_button && f.enabled
      then if f.skips_blank && is_blank f.text then hand_in (set_text skipped f) else hand_in f
      else f

  -- `ar`
  pub on_skip : TextField → TextField
  unfolding set_text hand_in
  on_skip f = hand_in (set_text skipped f)

  -- `Yq`; the focus that it asks for comes as an event.
  pub on_clear : TextField → TextField
  unfolding set_text
  on_clear f = set_text [] f

  -- The constructor enables the button.
  pub enable : TextField → TextField
  enable f = record f { enabled = if f.has_button then accepts f.text else f.enabled }
