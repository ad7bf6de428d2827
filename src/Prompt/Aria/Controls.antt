-- ===== src/Prompt/Aria/Controls.antt =====
-- What the renderer `$n` of a control writes of it as ARIA states: `bo`, `ac`, `fo` and `ho`. The role of an
-- element is none of the names that every object of the script has.
pub mod Written
mod Examples
use demolition_app.Base.{
  ℕ, ◌==◌, String, str_eq, Bool, true, false, not, ◌||◌, if◌then◌else◌, Option, some, none, [], ◌∷◌,
  ◌>>=◌,
}
use demolition_app.Base.Dict.{Dict, lookup}
use demolition_app.Prompt.Aria.{set_role, set_state}

-- `bo`: the state that tells of the mark of an element, by its role.
unfoldable pub role_states : Dict String
role_states =
    ("button", "pressed")
    ∷ ("checkbox", "checked")
    ∷ ("menuitem", "selected")
    ∷ ("menuitemcheckbox", "checked")
    ∷ ("menuitemradio", "checked")
    ∷ ("radio", "checked")
    ∷ ("tab", "selected")
    ∷ ("treeitem", "selected")
    ∷ []

-- `ao`: the states of the flags.
unfoldable pub flag_state : ℕ → Option String
flag_state flag =
    if flag == 1
    then some "disabled"
    else if flag == 8
    then some "selected"
    else if flag == 16
    then some "checked"
    else if flag == 64
    then some "expanded"
    else none

unfoldable pub is_mark : String → Bool
is_mark name = str_eq name "checked" || str_eq name "selected"

-- `bo[d]||b`, for an element that has a role.
unfoldable pub marked_as : Option String → String → Option String
unfolding role_states
marked_as none name = none
marked_as (some role) name =
    if str_eq role ""
    then none
    else elim (lookup role role_states) [ none ↦ some name | some other ↦ some other ]

unfoldable pub shown_as : Option String → String → Option String
unfolding is_mark marked_as
shown_as role name = if is_mark name then marked_as role name else some name

unfoldable pub truth : Bool → String
truth true = "true"
truth false = "false"

unfoldable pub write : Option String → Bool → Dict String → Option (Dict String)
unfolding truth
write none b element = some element
write (some name) b element = set_state element name (truth b)

-- `ac`
unfoldable pub set_flag : ℕ → Bool → Dict String → Option (Dict String)
unfolding write flag_state shown_as
set_flag flag b element = write (flag_state flag >>= shown_as (lookup "role" element)) b element

-- `fo`; the role is "" where the control has none.
unfoldable pub ensure_role : String → Dict String → Option (Dict String)
ensure_role role element = if str_eq role "" then some element else elim (lookup "role" element) [
  | none ↦ set_role element role
  | some old ↦ if str_eq old role then some element else set_role element role
]

-- What `ho` reads of a control: `am`; `S`, `isEnabled()`; whether it knows the flags 8, 16 and 64, and
-- whether these are set.
pub record Shown : Type 0 where
  pub label : Option String
  pub visible : Bool
  pub enabled : Bool
  pub selects : Bool
  pub checks : Bool
  pub opens : Bool
  pub selected : Bool
  pub checked : Bool
  pub opened : Bool

unfoldable pub write_label : Option String → Dict String → Option (Dict String)
write_label none element = some element
write_label (some s) element = set_state element "label" s

unfoldable pub when :
    Bool → (Dict String → Option (Dict String)) → Dict String → Option (Dict String)
when b act element = if b then act element else some element

unfoldable pub hide : Dict String → Option (Dict String)
hide element = set_state element "hidden" "true"

-- `ho`
unfoldable pub init_states : Shown → Dict String → Option (Dict String)
unfolding write_label when hide set_flag
init_states c element =
    write_label c.label element
    >>= when (not c.visible) hide
    >>= when (not c.enabled) (set_flag 1 (not c.enabled))
    >>= when c.selects (set_flag 8 c.selected)
    >>= when c.checks (set_flag 16 c.checked)
    >>= when c.opens (set_flag 64 c.opened)
