-- ===== src/Prompt/MenuButton/Active/Owned.antt =====
-- The active item of a button is the one that it owns.
use text.Mathlib.TextEquality.{eq_iff}
use demolition_app.Base.{
  ◌≡◌, refl, sym, ap, ◌∙◌, String, str_eq, Bool-cases, inl, inr, false, if◌then◌else◌, Option, none,
  some, ◌>>=◌,
}
use demolition_app.Base.Dict.{Dict, lookup}
use demolition_app.Prompt.Aria.{
  states, contains_value, attribute_name, defaults, put_attribute, or_empty, get_state, set_state,
  set_active_descendant,
}
use demolition_app.Prompt.Aria.States.{lookup-put_attribute}
use demolition_app.Prompt.MenuButton.Active.{tell_active, on_unhighlight}

-- The two states, once both were set to a text.
abbrev both : Dict String → String → Dict String
both button id =
    put_attribute (put_attribute button "aria-activedescendant" "activedescendant" id) "aria-owns"
      "owns" id

or_empty_if : (id : String) → or_empty (if str_eq id "" then none else some id) ≡ id
or_empty_if id = elim (Bool-cases (str_eq id "")) [
  | inl e ↦ rw e (sym ((eq_iff id "").0 e))
  | inr e ↦ rw e refl
]

get_owned :
    (button : Dict String) (id : String)
    → (get_state (both button id) "activedescendant" ≡ some id)
      × (get_state (both button id) "owns" ≡ some id)
unfolding get_state attribute_name contains_value states defaults lookup
get_owned button id =
    let told = put_attribute button "aria-activedescendant" "activedescendant" id in
    (
      ap (λ (o : Option String). some (or_empty o))
            (lookup-put_attribute told "aria-owns" "owns" id "aria-activedescendant"
              ∙ lookup-put_attribute button "aria-activedescendant" "activedescendant" id
                  "aria-activedescendant")
          ∙ ap some (or_empty_if id),
      ap (λ (o : Option String). some (or_empty o))
            (lookup-put_attribute told "aria-owns" "owns" id "aria-owns")
          ∙ ap some (or_empty_if id),
    )

-- An element that has an identifier is told of, and then the button reads it as its active and its own one.
tell_active-owned :
    (button : Dict String) (id : String)
    → str_eq id "" ≡ false
    → (tell_active button id >>= (λ b. get_state b "activedescendant") ≡ some id)
      × (tell_active button id >>= (λ b. get_state b "owns") ≡ some id)
unfolding tell_active set_active_descendant set_state attribute_name contains_value states
tell_active-owned button id named = rw named (get_owned button id)

-- Once no item is highlighted, the button reads none, whatever it said before.
on_unhighlight-owned :
    (button : Dict String)
    → (on_unhighlight false button >>= (λ b. get_state b "activedescendant") ≡ some "")
      × (on_unhighlight false button >>= (λ b. get_state b "owns") ≡ some "")
unfolding on_unhighlight set_state attribute_name contains_value states
on_unhighlight-owned button = get_owned button ""
