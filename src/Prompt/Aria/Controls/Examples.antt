-- ===== src/Prompt/Aria/Controls/Examples.antt =====
-- A checkbox that is marked and disabled.
use demolition_app.Base.{◌≡◌, refl, true, false, none, some, [], ◌∷◌}
use demolition_app.Base.Dict.{lookup, insert}
use demolition_app.Prompt.Aria.{states, contains_value, attribute_name, put_attribute, set_state}
use demolition_app.Prompt.Aria.Controls.{
  Shown, init_states, write_label, when, hide, set_flag, write, flag_state, shown_as, is_mark,
  marked_as, role_states, truth,
}

abbrev checkbox : Shown
checkbox = record {
  label = none;
  visible = true;
  enabled = false;
  selects = false;
  checks = true;
  opens = false;
  selected = false;
  checked = true;
  opened = false;
}

checkbox_states :
    init_states checkbox (("role", "checkbox") ∷ [])
    ≡ some (("role", "checkbox") ∷ ("aria-disabled", "true") ∷ ("aria-checked", "true") ∷ [])
unfolding init_states write_label when hide set_flag write flag_state shown_as is_mark marked_as
    role_states truth set_state attribute_name contains_value states put_attribute lookup insert
checkbox_states = refl
