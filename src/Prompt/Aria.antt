-- ===== src/Prompt/Aria.antt =====
-- ARIA roles and states of an element (`Fg`, `Gg`, `Gi`, `O`, `Ii`, `Hi`); an element is its
-- attributes.
pub mod Controls
pub mod States
mod Examples
use demolition_app.Base.{
  String, Bool, true, false, Option, some, none, List, [], ◌∷◌, ◌||◌, if◌then◌else◌, str_eq,
}
use demolition_app.Base.Dict.{Dict, lookup, has, insert, erase}
use Prim.Native.String.{◌++◌ as str_append}

-- `Pb(table, b)`: some value of the object is b.
unfoldable pub contains_value : List (String × String) → String → Bool
contains_value [] b = false
contains_value ((k, v) ∷ rest) b = str_eq v b || contains_value rest b

-- `Fg`
unfoldable pub states : List (String × String)
states =
    ("zu", "activedescendant")
    ∷ ("Ju", "atomic")
    ∷ ("Ku", "autocomplete")
    ∷ ("Vu", "busy")
    ∷ ("bv", "checked")
    ∷ ("ev", "colindex")
    ∷ ("rv", "controls")
    ∷ ("yv", "describedby")
    ∷ ("Ev", "disabled")
    ∷ ("Vv", "dropeffect")
    ∷ ("aw", "expanded")
    ∷ ("fw", "flowto")
    ∷ ("nw", "grabbed")
    ∷ ("sw", "haspopup")
    ∷ ("uw", "hidden")
    ∷ ("zw", "invalid")
    ∷ ("Dw", "label")
    ∷ ("Ew", "labelledby")
    ∷ ("Fw", "level")
    ∷ ("Kw", "live")
    ∷ ("Ax", "multiline")
    ∷ ("Cx", "multiselectable")
    ∷ ("Jx", "orientation")
    ∷ ("Lx", "owns")
    ∷ ("by", "posinset")
    ∷ ("dy", "pressed")
    ∷ ("jy", "readonly")
    ∷ ("my", "relevant")
    ∷ ("ny", "required")
    ∷ ("wy", "rowindex")
    ∷ ("Dy", "selected")
    ∷ ("Hy", "setsize")
    ∷ ("Ky", "sort")
    ∷ ("xz", "valuemax")
    ∷ ("yz", "valuemin")
    ∷ ("zz", "valuenow")
    ∷ ("Az", "valuetext")
    ∷ []

-- `Gg`
pub roles : List (String × String)
roles =
    ("Bu", "alert")
    ∷ ("Cu", "alertdialog")
    ∷ ("Hu", "application")
    ∷ ("Iu", "article")
    ∷ ("Lu", "banner")
    ∷ ("Wu", "button")
    ∷ ("av", "checkbox")
    ∷ ("fv", "columnheader")
    ∷ ("gv", "combobox")
    ∷ ("hv", "complementary")
    ∷ ("ov", "contentinfo")
    ∷ ("xv", "definition")
    ∷ ("Cv", "dialog")
    ∷ ("Dv", "directory")
    ∷ ("Fv", "document")
    ∷ ("kw", "form")
    ∷ ("ow", "grid")
    ∷ ("pw", "gridcell")
    ∷ ("qw", "group")
    ∷ ("tw", "heading")
    ∷ ("ww", "img")
    ∷ ("Gw", "link")
    ∷ ("Hw", "list")
    ∷ ("Iw", "listbox")
    ∷ ("Jw", "listitem")
    ∷ ("Tw", "log")
    ∷ ("Xw", "main")
    ∷ ("Yw", "marquee")
    ∷ ("Zw", "math")
    ∷ ("ax", "menu")
    ∷ ("bx", "menubar")
    ∷ ("cx", "menuitem")
    ∷ ("dx", "menuitemcheckbox")
    ∷ ("ex", "menuitemradio")
    ∷ ("Dx", "navigation")
    ∷ ("Ex", "note")
    ∷ ("Ix", "option")
    ∷ ("cy", "presentation")
    ∷ ("ey", "progressbar")
    ∷ ("gy", "radio")
    ∷ ("hy", "radiogroup")
    ∷ ("ly", "region")
    ∷ ("ty", "row")
    ∷ ("uy", "rowgroup")
    ∷ ("vy", "rowheader")
    ∷ ("zy", "scrollbar")
    ∷ ("Op", "search")
    ∷ ("Gy", "separator")
    ∷ ("Jy", "slider")
    ∷ ("Oy", "spinbutton")
    ∷ ("Ry", "status")
    ∷ ("Xy", "tab")
    ∷ ("Yy", "tablist")
    ∷ ("Zy", "tabpanel")
    ∷ ("az", "textbox")
    ∷ ("bz", "textinfo")
    ∷ ("ez", "timer")
    ∷ ("gz", "toolbar")
    ∷ ("hz", "tooltip")
    ∷ ("nz", "tree")
    ∷ ("oz", "treegrid")
    ∷ ("pz", "treeitem")
    ∷ []

-- The default values of `Eg`; a Boolean is written as its text.
unfoldable pub defaults : Dict String
defaults =
    ("atomic", "false")
    ∷ ("autocomplete", "none")
    ∷ ("dropeffect", "none")
    ∷ ("haspopup", "false")
    ∷ ("live", "off")
    ∷ ("multiline", "false")
    ∷ ("multiselectable", "false")
    ∷ ("orientation", "vertical")
    ∷ ("readonly", "false")
    ∷ ("relevant", "additions text")
    ∷ ("required", "false")
    ∷ ("sort", "none")
    ∷ ("busy", "false")
    ∷ ("disabled", "false")
    ∷ ("hidden", "false")
    ∷ ("invalid", "false")
    ∷ []

-- `Hi`: the name of the attribute; it throws for an empty and for an unknown name.
unfoldable pub attribute_name : String → Option String
attribute_name a =
    if str_eq a ""
    then none
    else if contains_value states a
    then some (str_append "aria-" a)
    else none

-- `Gi`; an empty role removes the attribute.
pub set_role : Dict String → String → Option (Dict String)
set_role element role =
    if str_eq role ""
    then some (erase "role" element)
    else if contains_value roles role
    then some (insert "role" role element)
    else none

-- What `O` does to an attribute that has no value: the default, or no attribute.
unfoldable pub reset_attribute : Dict String → String → String → Dict String
reset_attribute element attribute name = elim (lookup name defaults) [
  | none ↦ erase attribute element
  | some value ↦ insert attribute value element
]

unfoldable pub put_attribute : Dict String → String → String → String → Dict String
unfolding reset_attribute
put_attribute element attribute name value =
    if str_eq value ""
    then reset_attribute element attribute name
    else insert attribute value element

-- `O`, with a text as the value; "" stands for `undefined` too.
unfoldable pub set_state : Dict String → String → String → Option (Dict String)
set_state element name value = elim (attribute_name name) [
  | none ↦ none
  | some attribute ↦ some (put_attribute element attribute name value)
]

abbrev pub or_empty : Option String → String
or_empty none = ""
or_empty (some s) = s

-- `Ii`
unfoldable pub get_state : Dict String → String → Option String
get_state element name = elim (attribute_name name) [
  | none ↦ none
  | some attribute ↦ some (or_empty (lookup attribute element))
]

-- `Ji`, with the identifier of the active element, or `null`; an element must have one.
unfoldable pub set_active_descendant : Dict String → Option String → Option (Dict String)
set_active_descendant element none = set_state element "activedescendant" ""
set_active_descendant element (some id) =
    if str_eq id "" then none else set_state element "activedescendant" id
