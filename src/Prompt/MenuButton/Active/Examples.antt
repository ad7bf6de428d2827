-- ===== src/Prompt/MenuButton/Active/Examples.antt =====
-- An item without an identifier is highlighted, and no longer.
use demolition_app.Base.{◌≡◌, refl, true, false, some, [], ◌∷◌, ◌>>=◌}
use demolition_app.Base.Dict.{lookup, insert, erase}
use demolition_app.Prompt.Aria.{
  states, contains_value, attribute_name, defaults, reset_attribute, put_attribute, set_state,
  get_state, set_active_descendant,
}
use demolition_app.Prompt.MenuButton.Active.{
  Item, own_id, active_id, tell_active, mark_active, on_highlight, on_unhighlight,
}

abbrev item : Item
item = record { rendered = true; id = ""; attributes = []; visible = true; highlighted = true }

item_told :
    on_highlight (λ s. false) ":1" item []
    ≡ some (("aria-activedescendant", ":1") ∷ ("aria-owns", ":1") ∷ [])
unfolding on_highlight mark_active active_id own_id tell_active set_active_descendant get_state
    set_state attribute_name contains_value states put_attribute lookup insert
item_told = refl

item_left : (on_highlight (λ s. false) ":1" item [] >>= on_unhighlight false) ≡ some []
unfolding on_highlight on_unhighlight mark_active active_id own_id tell_active set_active_descendant
    get_state set_state attribute_name contains_value states put_attribute reset_attribute defaults
    lookup insert erase
item_left = refl
