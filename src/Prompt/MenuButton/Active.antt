-- ===== src/Prompt/MenuButton/Active.antt =====
-- Which item a menu button `cp` says is the active one: `hp`, `Pj`, `Xj`, `Mj` and `lr`. The button is the
-- attributes of its element.
pub mod Owned
mod Examples
use demolition_app.Base.{
  String, str_eq, Bool, true, false, not, ◌&&◌, if◌then◌else◌, Option, some, none, ◌>>=◌,
}
use demolition_app.Base.Dict.{Dict}
use demolition_app.Prompt.Aria.{get_state, set_state, set_active_descendant}

-- An item of the menu: its element, if it has one, as the identifier, "" for none, and the attributes; `S`,
-- and `D&2`.
pub record Item : Type 0 where
  pub rendered : Bool
  pub id : String
  pub attributes : Dict String
  pub visible : Bool
  pub highlighted : Bool

-- The identifier of the element that is told of: the active one of the item, where the page has it, and else
-- the item itself, which gets a new one if it has none.
unfoldable pub own_id : String → Item → String
own_id fresh item = if str_eq item.id "" then fresh else item.id

unfoldable pub active_id : (String → Bool) → String → Item → Option String
unfolding own_id
active_id has_id fresh item =
    get_state item.attributes "activedescendant"
    >>= (λ old. some (if not (str_eq old "") && has_id old then old else own_id fresh item))

unfoldable pub tell_active : Dict String → String → Option (Dict String)
tell_active button id =
    set_active_descendant button (some id) >>= (λ told. set_state told "owns" id)

-- `hp`
unfoldable pub mark_active : (String → Bool) → String → Item → Dict String → Option (Dict String)
unfolding active_id tell_active
mark_active has_id fresh item button = active_id has_id fresh item >>= tell_active button

-- `Pj`: an item was highlighted.
unfoldable pub on_highlight : (String → Bool) → String → Item → Dict String → Option (Dict String)
unfolding mark_active
on_highlight has_id fresh item button =
    if item.rendered then mark_active has_id fresh item button else some button

-- `Xj`: an item is no longer highlighted; `some_item` tells whether the menu has a highlighted one.
unfoldable pub on_unhighlight : Bool → Dict String → Option (Dict String)
on_unhighlight true button = some button
on_unhighlight false button =
    set_state button "activedescendant" "" >>= (λ told. set_state told "owns" "")

-- `Mj`: a menu was closed in the menu, by an item or by something else.
unfoldable pub on_close :
    Bool → (String → Bool) → String → Option Item → Dict String → Option (Dict String)
on_close opened has_id fresh none button = some button
on_close opened has_id fresh (some item) button =
    if opened && item.visible && item.highlighted && item.rendered
    then mark_active has_id fresh item button
    else some button

-- `lr`: whether a key that was pressed goes no further; the button takes the focus, is rendered, and has a
-- menu that is visible.
unfoldable pub stops_key : Bool → Bool → Bool → Bool → Bool
stops_key takes_focus rendered has_menu menu_visible =
    takes_focus && rendered && has_menu && menu_visible
