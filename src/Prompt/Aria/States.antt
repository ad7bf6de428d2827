-- ===== src/Prompt/Aria/States.antt =====
-- Reading an ARIA state after it was set.
use demolition_app.Base.{
  ◌≡◌, refl, String, false, some, if◌then◌else◌, str_eq, arith, Option-cases, inl, inr, ap, ◌∙◌,
}
use demolition_app.Base.Dict.{Dict, lookup, lookup-insert, lookup-erase, str_eq_refl}
use demolition_app.Prompt.Aria.{
  defaults, attribute_name, reset_attribute, put_attribute, set_state, get_state, or_empty,
}

pub lookup-put_attribute :
    (element : Dict String) (attribute name value other : String)
    → lookup other (put_attribute element attribute name value) ≡ (
        if str_eq attribute other
        then (if str_eq value "" then lookup name defaults else some value)
        else lookup other element)
unfolding put_attribute reset_attribute
lookup-put_attribute element attribute name value other =
    elim (Option-cases (lookup name defaults)) [
      | inl e ↦ rw e (
          ground (
            arith,
            lookup-insert attribute other value element,
            lookup-erase attribute other element,
          ))
      | inr (v, e) ↦ rw e (
          ground (
            arith,
            lookup-insert attribute other value element,
            lookup-insert attribute other v element,
          ))
    ]

-- When an ARIA state is set, the same state reads as the text that was set, or for no text as its
-- default, if it has one, and every attribute of another name stays as it was.
get_state-set_state :
    (element : Dict String) (name value attribute other : String)
    → attribute_name name ≡ some attribute
    → str_eq attribute other ≡ false
    → let after = put_attribute element attribute name value in
      (set_state element name value ≡ some after)
      × (get_state after name
          ≡ some (if str_eq value "" then or_empty (lookup name defaults) else value))
      × (lookup other after ≡ lookup other element)
unfolding set_state get_state
get_state-set_state element name value attribute other known apart =
    let after = put_attribute element attribute name value in
    (
      rw (set_state, known) refl,
      rw (get_state, known)
          (ap (λ o. some (or_empty o)) (lookup-put_attribute element attribute name value attribute)
            ∙ ground (arith, str_eq_refl attribute)),
      lookup-put_attribute element attribute name value other ∙ rw apart refl,
    )
