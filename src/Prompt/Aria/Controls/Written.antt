-- ===== src/Prompt/Aria/Controls/Written.antt =====
-- The states of a control can always be written, and what tells of its mark.
use demolition_app.Base.{
  ℕ, ◌==◌, ◌≡◌, refl, String, str_eq, Bool, true, false, not, if◌then◌else◌, Option, some, none, [],
  ◌∷◌, ◌>>=◌, All, subst, Bool-cases, Option-cases, inl, inr,
}
use demolition_app.Base.Dict.{Dict, lookup}
use demolition_app.Prompt.Aria.{states, contains_value, attribute_name, set_state}
use demolition_app.Prompt.Aria.Controls.{
  role_states, flag_state, is_mark, marked_as, shown_as, truth, write, set_flag, Shown, write_label,
  when, hide, init_states,
}

-- A state that there is.
abbrev IsKnown : String → Type 0
IsKnown name = (str_eq name "" ≡ false) × (contains_value states name ≡ true)

-- Something comes out.
abbrev IsGiven {ℓ} : {A : Type ℓ} → Option A → Type ℓ
IsGiven {A = A} o = (a : A) × (o ≡ some a)

none-some : {s : String} → none ≡ some s → ⊥
none-some e = cc (e)

some_injective : {s t : String} → some s ≡ some t → s ≡ t
some_injective e = cc (e)

bind-IsGiven :
    (o : Option (Dict String)) (f : Dict String → Option (Dict String))
    → IsGiven o
    → ((element : Dict String) → IsGiven (f element))
    → IsGiven (o >>= f)
bind-IsGiven o f (a, e) g = rw e (g a)

set_state-IsGiven :
    (name value : String) (element : Dict String)
    → IsKnown name
    → IsGiven (set_state element name value)
unfolding set_state attribute_name
set_state-IsGiven name value element (named, known) =
    rw (set_state, attribute_name, named, known) (_, refl)

if-IsKnown :
    (b : Bool) (this name : String) (other : Option String)
    → IsKnown this
    → (other ≡ some name → IsKnown name)
    → (if b then some this else other) ≡ some name
    → IsKnown name
if-IsKnown true this name other k f e = subst IsKnown (some_injective e) k
if-IsKnown false this name other k f e = f e

if-none :
    (b : Bool) (other : Option String) (name : String)
    → (other ≡ some name → IsKnown name)
    → (if b then none else other) ≡ some name
    → IsKnown name
if-none true other name f e = absurd (none-some e)
if-none false other name f e = f e

lookup-IsKnown :
    (d : Dict String) (key name : String)
    → All (λ (p : String × String). IsKnown p.1) d
    → lookup key d ≡ some name
    → IsKnown name
unfolding lookup
lookup-IsKnown [] key name k e = absurd (none-some e)
lookup-IsKnown ((j, v) ∷ d) key name (k, ks) e =
    if-IsKnown (str_eq j key) v name (lookup key d) k (lookup-IsKnown d key name ks) e

role_states-IsKnown : All (λ (p : String × String). IsKnown p.1) role_states
unfolding role_states contains_value states
role_states-IsKnown = (
  (refl, refl),
  (
    (refl, refl),
    (
      (refl, refl),
      ((refl, refl), ((refl, refl), ((refl, refl), ((refl, refl), ((refl, refl), tt))))),
    ),
  ),
)

disabled-IsKnown : IsKnown "disabled"
unfolding contains_value states
disabled-IsKnown = (refl, refl)

selected-IsKnown : IsKnown "selected"
unfolding contains_value states
selected-IsKnown = (refl, refl)

checked-IsKnown : IsKnown "checked"
unfolding contains_value states
checked-IsKnown = (refl, refl)

expanded-IsKnown : IsKnown "expanded"
unfolding contains_value states
expanded-IsKnown = (refl, refl)

flag_state-IsKnown : (flag : ℕ) (name : String) → flag_state flag ≡ some name → IsKnown name
unfolding flag_state
flag_state-IsKnown flag name = if-IsKnown (flag == 1) "disabled" name _ disabled-IsKnown (
    if-IsKnown (flag == 8) "selected" name _ selected-IsKnown (
      if-IsKnown (flag == 16) "checked" name _ checked-IsKnown (
        if-IsKnown (flag == 64) "expanded" name none expanded-IsKnown (λ e. absurd (none-some e)))))

marked_as-IsKnown :
    (role : Option String) (name other : String)
    → IsKnown name
    → marked_as role name ≡ some other
    → IsKnown other
unfolding marked_as
marked_as-IsKnown none name other k = λ e. absurd (none-some e)
marked_as-IsKnown (some role) name other k =
    if-none (str_eq role "") _ other (elim (Option-cases (lookup role role_states)) [
      | inl e ↦ rw e (λ f. subst IsKnown (some_injective f) k)
      | inr (v, e) ↦ rw e (λ f.
          subst IsKnown (some_injective f)
            (lookup-IsKnown role_states role v role_states-IsKnown e))
    ])

shown_as-IsKnown :
    (role : Option String) (name other : String)
    → IsKnown name
    → shown_as role name ≡ some other
    → IsKnown other
unfolding shown_as
shown_as-IsKnown role name other k = elim (Bool-cases (is_mark name)) [
  | inl e ↦ rw e (marked_as-IsKnown role name other k)
  | inr e ↦ rw e (λ f. subst IsKnown (some_injective f) k)
]

write-IsGiven :
    (o : Option String) (b : Bool) (element : Dict String)
    → ((name : String) → o ≡ some name → IsKnown name)
    → IsGiven (write o b element)
unfolding write
write-IsGiven none b element k = (element, refl)
write-IsGiven (some name) b element k = set_state-IsGiven name (truth b) element (k name refl)

-- Whatever the role of an element, and whichever flag is told of: no name is unknown.
set_flag-IsGiven : (flag : ℕ) (b : Bool) (element : Dict String) → IsGiven (set_flag flag b element)
unfolding set_flag
set_flag-IsGiven flag b element =
    let role = lookup "role" element in
    write-IsGiven (flag_state flag >>= shown_as role) b element (λ other.
      elim (Option-cases (flag_state flag)) [
        | inl e ↦ rw e (λ f. absurd (none-some f))
        | inr (name, e) ↦ rw e (shown_as-IsKnown role name other (flag_state-IsKnown flag name e))
      ])

when-IsGiven :
    (b : Bool) (act : Dict String → Option (Dict String)) (element : Dict String)
    → ((e : Dict String) → IsGiven (act e))
    → IsGiven (when b act element)
unfolding when
when-IsGiven true act element g = g element
when-IsGiven false act element g = (element, refl)

write_label-IsGiven :
    (label : Option String) (element : Dict String) → IsGiven (write_label label element)
unfolding write_label contains_value states
write_label-IsGiven none element = (element, refl)
write_label-IsGiven (some s) element = set_state-IsGiven "label" s element (refl, refl)

hide-IsGiven : (element : Dict String) → IsGiven (hide element)
unfolding hide contains_value states
hide-IsGiven element = set_state-IsGiven "hidden" "true" element (refl, refl)

-- The states of any control can be written to any element.
init_states-IsGiven : (c : Shown) (element : Dict String) → IsGiven (init_states c element)
unfolding init_states
init_states-IsGiven c element =
    bind-IsGiven _ _
      (bind-IsGiven _ _
        (bind-IsGiven _ _
          (bind-IsGiven _ _
            (bind-IsGiven _ _ (write_label-IsGiven c.label element)
              (λ e. when-IsGiven (not c.visible) hide e hide-IsGiven))
            (λ e. when-IsGiven (not c.enabled) _ e (set_flag-IsGiven 1 (not c.enabled))))
          (λ e. when-IsGiven c.selects _ e (set_flag-IsGiven 8 c.selected)))
        (λ e. when-IsGiven c.checks _ e (set_flag-IsGiven 16 c.checked)))
      (λ e. when-IsGiven c.opens _ e (set_flag-IsGiven 64 c.opened))

-- Without a role, nothing tells of a mark.
set_flag-unmarked :
    (b : Bool) (element : Dict String)
    → lookup "role" element ≡ none
    → (set_flag 8 b element ≡ some element) × (set_flag 16 b element ≡ some element)
unfolding set_flag flag_state shown_as marked_as is_mark write
set_flag-unmarked b element e = (rw e refl, rw e refl)
