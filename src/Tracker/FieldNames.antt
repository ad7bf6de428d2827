-- ===== src/Tracker/FieldNames.antt =====
-- The fields of a tracker by their names, and what tells how a method reads or sets one: `Wa`, `Ya`, `N`.
use demolition_app.Base.{ℕ, Bool, String, Option}

-- The fields that methods read or set.
pub data Field : Type 0 where
  name account visitor client_info detect_title detect_flash : Field
  gif_path service_mode namespace allow_linker sample_rate campaign_track : Field
  allow_anchor name_key content_key id_key medium_key no_override_key : Field
  source_key term_key click_id_key cookie_path max_vars visitor_timeout : Field
  session_timeout campaign_timeout referrer speed_rate store_gac : Field

-- Their numbers, to tell them apart.
unfoldable pub code : Field → ℕ
code name = 0
code account = 1
code visitor = 2
code client_info = 3
code detect_title = 4
code detect_flash = 5
code gif_path = 6
code service_mode = 7
code namespace = 8
code allow_linker = 9
code sample_rate = 10
code campaign_track = 11
code allow_anchor = 12
code name_key = 13
code content_key = 14
code id_key = 15
code medium_key = 16
code no_override_key = 17
code source_key = 18
code term_key = 19
code click_id_key = 20
code cookie_path = 21
code max_vars = 22
code visitor_timeout = 23
code session_timeout = 24
code campaign_timeout = 25
code referrer = 26
code speed_rate = 27
code store_gac = 28

pub data Value : Type 0 where
  undefined nan : Value
  text : String → Value
  number : ℕ → Value
  flag : Bool → Value

-- The cases of `Aa`.
pub data Conversion : Type 0 where
  to_text to_number to_flag to_ms as_is : Conversion

-- A field that a method reads: its number among the calls, and how the value is converted.
pub record Getter : Type 0 where
  pub method : String
  pub field : Field
  pub call : ℕ
  pub conversion : Conversion

-- A field that a method sets, to its argument or to a value of the method's own.
pub record Setter : Type 0 where
  pub method : String
  pub field : Field
  pub call : ℕ
  pub conversion : Conversion
  pub fixed : Option ℕ
