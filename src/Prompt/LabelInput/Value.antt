-- ===== src/Prompt/LabelInput/Value.antt =====
-- The value of the field is what was entered, whatever the label does.
use demolition_app.Base.{
  ◌≡◌, ◌⊎◌, inl, inr, refl, sym, ◌∙◌, String, str_eq, eq_iff, false, not, ◌&&◌, ◌||◌, ◌==◌, none,
  List, [], ◌∷◌, if_elim, if_cases, if◌then◌else◌, arith,
}
use demolition_app.Base.Dict.{str_eq_refl}
use demolition_app.Prompt.LabelInput.{
  Browser, LabelInput, has_changed, get_value, on_submit, run_reset, run_restore, check, on_focus,
  on_blur, set_value,
}

-- The events and timeouts in which nothing is entered.
pub data Input : Type 0 where
  focus blur submit resets restores checks : Input

pub step : Browser → Input → LabelInput → LabelInput
step b focus i = on_focus b i
step b blur i = on_blur b i
step b submit i = on_submit i
step b resets i = run_reset i
step b restores i = run_restore i
step b checks i = check b i

pub run : Browser → List Input → LabelInput → LabelInput
run b [] i = i
run b (x ∷ xs) i = run b xs (step b x i)

-- The text that counts of a value.
entered : String → String → String
entered label v = if not (str_eq v "") && not (str_eq v label) then v else ""

entered-label : (label : String) → entered label label ≡ ""
unfolding entered
entered-label label = ground (arith, str_eq_refl label)

entered-empty : (label : String) → entered label "" ≡ ""
unfolding entered
entered-empty label = refl

entered-if : (label w : String) → entered label w ≡ (if str_eq w label then "" else w)
unfolding entered
entered-if label w = ground (arith, eq_iff w "", eq_iff w label)

-- A field with the label, before no Esc, in which v is entered.
record Holds (label v : String) (i : LabelInput) : Type 0 where
  pub same_label : i.label ≡ label
  pub no_esc : i.before_esc ≡ none
  pub kept : entered label i.value ≡ v

get_value-Holds : (label v : String) (i : LabelInput) → Holds label v i → get_value i ≡ v
unfolding get_value has_changed entered
get_value-Holds label v i h = rw h.no_esc (rw h.same_label h.kept)

Holds-get_value : (i : LabelInput) → i.before_esc ≡ none → Holds i.label (get_value i) i
unfolding get_value has_changed entered
Holds-get_value i e = record { same_label = refl; no_esc = e; kept = rw e refl }

unchanged : (label v : String) (i : LabelInput) → Holds label v i → has_changed i ≡ false → v ≡ ""
unfolding has_changed entered
unchanged label v i h e = sym h.kept ∙ rw (sym h.same_label) (rw e refl)

-- A field that keeps its label, its value and that it is before no Esc.
alike :
    {label v : String} (i j : LabelInput)
    → j.label ≡ i.label
    → j.before_esc ≡ none
    → j.value ≡ i.value
    → Holds label v i
    → Holds label v j
alike i j l e w h = record { same_label = l ∙ h.same_label; no_esc = e; kept = rw w h.kept }

-- A field without an entry may show nothing, or its label.
emptied :
    (label v : String) (i j : LabelInput)
    → j.label ≡ i.label
    → j.before_esc ≡ none
    → (j.value ≡ "") ⊎ (j.value ≡ i.label)
    → has_changed i ≡ false
    → Holds label v i
    → Holds label v j
emptied label v i j l e w c h = record {
  same_label = l ∙ h.same_label;
  no_esc = e;
  kept = value-kept w ∙ sym (unchanged label v i h c);
}
  where
    value-kept : (j.value ≡ "") ⊎ (j.value ≡ i.label) → entered label j.value ≡ ""
    value-kept (inl w) = rw w (entered-empty label)
    value-kept (inr w) = rw w (rw h.same_label (entered-label label))

check-Holds :
    (b : Browser) (label v : String) (i : LabelInput) → Holds label v i → Holds label v (check b i)
unfolding check
check-Holds b label v i h =
    if_elim (Holds label v) (has_changed i) _ _ (alike i _ refl h.no_esc refl h)
      (alike i _ refl h.no_esc refl h)

step-Holds :
    (b : Browser) (x : Input) (label v : String) (i : LabelInput)
    → Holds label v i
    → Holds label v (step b x i)
unfolding step on_focus on_blur on_submit run_reset run_restore
step-Holds b focus label v i h =
    if_cases (Holds label v) (not b.placeholders && not (has_changed i)) _ _
      (λ e.
        if_elim (Holds label v) b.explorer _ _ (alike i _ refl h.no_esc refl h)
          (emptied label v i _ refl h.no_esc (inl refl) (ground (arith, e)) h))
      (λ e. alike i _ refl h.no_esc refl h)
step-Holds b blur label v i h =
    let j = record i {
      focused = false;
      before_esc = if b.placeholders then i.before_esc else none;
    } in
    check-Holds b label v j
      (alike i j refl (if_elim (λ o. o ≡ none) b.placeholders _ _ h.no_esc refl) refl h)
step-Holds b submit label v i h =
    if_cases (Holds label v) (has_changed i) _ _ (λ e. h)
      (λ e. emptied label v i _ refl h.no_esc (inl refl) e h)
step-Holds b resets label v i h = if_elim (Holds label v) (i.resets == 0) _ _ h (
    if_cases (Holds label v) (has_changed i) _ _ (λ e. alike i _ refl h.no_esc refl h)
      (λ e. emptied label v i _ refl h.no_esc (inr refl) e h))
step-Holds b restores label v i h = if_elim (Holds label v) (i.restores == 0) _ _ h (
    if_cases (Holds label v) (has_changed i || i.focused) _ _ (λ e. alike i _ refl h.no_esc refl h)
      (λ e. emptied label v i _ refl h.no_esc (inr refl) (ground (arith, e)) h))
step-Holds b checks label v i h = check-Holds b label v i h

run-Holds :
    (b : Browser) (xs : List Input) (label v : String) (i : LabelInput)
    → Holds label v i
    → Holds label v (run b xs i)
unfolding run
run-Holds b [] label v i h = h
run-Holds b (x ∷ xs) label v i h = run-Holds b xs label v (step b x i) (step-Holds b x label v i h)

-- In a field that is before no Esc, a value that is set is the value after the field gained and
-- lost the focus, its form was sent and the timeouts for the label ran out, in any order and number;
-- but the label itself counts as no value.
set_value-run :
    (b : Browser) (w : String) (xs : List Input) (i : LabelInput)
    → i.before_esc ≡ none
    → get_value (run b xs (set_value b w i)) ≡ (if str_eq w i.label then "" else w)
unfolding set_value
set_value-run b w xs i e = get_value-Holds i.label _ _ (
    run-Holds b xs i.label (if str_eq w i.label then "" else w) _ (
      check-Holds b i.label _ _
        (record { same_label = refl; no_esc = rw e refl; kept = entered-if i.label w })))
