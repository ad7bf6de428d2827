-- ===== src/Tracker/Methods/Access.antt =====
-- What a method that sets a field does to the others.
use demolition_app.Base.{
  ℕ, ◌≡◌, refl, ap, ◌∙◌, ◌==◌, if◌then◌else◌, String, Option, none, some, ◌>>=◌, ◌||◌,
}
use demolition_app.Tracker.Methods.{
  Fields, note, put, get, convert, set_by, get_by, set_found, get_found, find_setter, find_getter,
  call_set, call_get,
}
use demolition_app.Tracker.FieldNames.{code, Value, number, Getter, Setter}
use demolition_app.Tracker.Tables.{setters, getters}

module _ (print : ℕ → String) (read : String → Option ℕ) where
  -- What a setter puts into its field.
  abbrev pub new_value : Setter → Value → Value
  new_value s v = elim s.fixed [ none ↦ convert print read s.conversion v | some n ↦ number n ]

  get-set_by :
      (s : Setter) (g : Getter) (v : Value) (t : Fields)
      → (get_by print read g (set_by print read s v t)).0
        ≡ convert print read g.conversion
            (if code s.field == code g.field then new_value s v else get g.field t)
  unfolding get_by set_by get put note
  get-set_by s g v t = refl

  -- Where a method that sets a field and one that reads one have these names, what is read after a call
  -- of the first is, converted, the new value, where the field is the same, and else the old one; and the
  -- calls that were made are the two, and those before.
  pub call_get-call_set :
      (set_name get_name : String) (s : Setter) (g : Getter) (v : Value) (t : Fields)
      → find_setter set_name setters ≡ some s
      → find_getter get_name getters ≡ some g
      → call_set print read set_name v t >>= (λ u. call_get print read get_name u)
        ≡ some (
          convert print read g.conversion
              (if code s.field == code g.field then new_value s v else get g.field t),
          record t {
            values = λ i. if code s.field == i then new_value s v else t.values i;
            made = λ m. g.call == m || (s.call == m || t.made m);
          },
        )
  unfolding call_set call_get set_found get_found get_by set_by get put note
  call_get-call_set set_name get_name s g v t e f =
      ap (λ o. set_found print read o v t >>= (λ u. call_get print read get_name u)) e
      ∙ ap (λ o. get_found print read o (set_by print read s v t)) f
