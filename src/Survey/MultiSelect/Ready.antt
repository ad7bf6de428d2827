-- ===== src/Survey/MultiSelect/Ready.antt =====
-- When the button works, and that "None of the above" stands alone.
use demolition_app.Base.{
  ℕ, zero, suc, ◌-◌, ltb, ◌≡◌, refl, sym, ap, ◌∙◌, ◌⊎◌, Bool, true, false, not, ◌&&◌, ◌||◌, ◌++◌,
  if◌then◌else◌, if_cases, if_elim, Bool-cases, String, Option, none, some, List, [], ◌∷◌, arith,
  inl, inr,
}
use demolition_app.Survey.MultiSelect.{
  Row, MultiSelect, Place, row, none_of_the_above, set_row, set_rows, set_none, is_checked, ticked,
  change_row, row_at, flip_box, flip_none, flip_at, mark_row, settle_row, settle_none, settle,
  is_nil, other_values, values, nothing_chosen, update_button, on_click, type_in, on_other,
  hands_in,
}

-- "None of the above" is not ticked together with a row.
Exclusive : MultiSelect → Type 0
Exclusive m = is_checked m.none_row && not (is_nil (ticked m.rows)) ≡ false

change_row-id :
    (n : ℕ) (rows : List Row)
    → row_at n (change_row flip_box n rows) ≡ none
    → change_row flip_box n rows ≡ rows
unfolding row_at change_row
change_row-id n [] h = refl
change_row-id zero (r ∷ rows) h = absurd (ground (arith, h))
change_row-id (suc n) (r ∷ rows) h = ap (r ∷◌) (change_row-id n rows h)

-- A row whose box is not ticked after a click on it was ticked before.
is_nil-ticked :
    (n : ℕ) (rows : List Row) (r : Row)
    → row_at n (change_row flip_box n rows) ≡ some r
    → r.checked ≡ false
    → is_nil (ticked rows) ≡ false
unfolding row_at change_row flip_box ticked is_nil is_checked
is_nil-ticked n [] r h e = absurd (ground (arith, h))
is_nil-ticked zero (q ∷ rows) r h e =
    let c : not q.checked ≡ false = ap is_checked h ∙ e in
    if_cases (λ (l : List String). is_nil l ≡ false) q.checked _ _ (λ _. refl)
      (λ d. absurd (ground (arith, c, d)))
is_nil-ticked (suc n) (q ∷ rows) r h e =
    if_elim (λ (l : List String). is_nil l ≡ false) q.checked _ _ refl (is_nil-ticked n rows r h e)

ticked-set_rows : (rows : List Row) → ticked (set_rows false rows) ≡ []
unfolding ticked set_rows set_row
ticked-set_rows [] = refl
ticked-set_rows (r ∷ rows) = ticked-set_rows rows

ticked-mark_row : (n : ℕ) (rows : List Row) → ticked (change_row mark_row n rows) ≡ ticked rows
unfolding ticked change_row mark_row set_row
ticked-mark_row n [] = refl
ticked-mark_row zero (r ∷ rows) = refl
ticked-mark_row (suc n) (r ∷ rows) =
    ap (λ l. if r.checked then r.value ∷ l else l) (ticked-mark_row n rows)

is_checked-set_none : (o : Option Row) → is_checked (set_none false o) ≡ false
unfolding is_checked set_none set_row
is_checked-set_none none = refl
is_checked-set_none (some r) = refl

settle_row-Exclusive :
    (n : ℕ) (o : Option Row) (m : MultiSelect)
    → row_at n (change_row flip_box n m.rows) ≡ o
    → Exclusive m
    → Exclusive (settle_row n o (record m { rows = change_row flip_box n m.rows }))
unfolding settle_row Exclusive
settle_row-Exclusive n none m h x =
    ap (λ l. is_checked m.none_row && not (is_nil (ticked l))) (change_row-id n m.rows h) ∙ x
settle_row-Exclusive n (some r) m h x = elim (Bool-cases r.checked) [
  | inl e ↦ rw e (ground (arith, is_checked-set_none m.none_row))
  | inr e ↦ rw e (ground (arith, x, is_nil-ticked n m.rows r h e))
]

settle_none-Exclusive :
    (o : Option Row) (m : MultiSelect) → Exclusive (settle_none o (record m { none_row = o }))
unfolding settle_none Exclusive mark_row set_row is_checked is_nil
settle_none-Exclusive none m = refl
settle_none-Exclusive (some r) m =
    if_cases (λ (l : List Row). r.checked && not (is_nil (ticked l)) ≡ false) r.checked _ _
      (λ e. rw (ticked-set_rows m.rows) (ground (arith, e))) (λ e. ground (arith, e))

settle-Exclusive :
    (place : Place) (m : MultiSelect) → Exclusive m → Exclusive (settle place (flip_at place m))
unfolding settle flip_at
settle-Exclusive (row n) m x = settle_row-Exclusive n _ m refl x
settle-Exclusive none_of_the_above m x = settle_none-Exclusive (flip_none m.none_row) m

-- What the button of the older design needs of its listener.
abbrev Hears : MultiSelect → Type 0
Hears m = m.modern ≡ false → m.listening ≡ not m.disabled

settle_row-Hears : (n : ℕ) (o : Option Row) (m : MultiSelect) → Hears m → Hears (settle_row n o m)
unfolding settle_row
settle_row-Hears n none m h = h
settle_row-Hears n (some r) m h = h

settle_none-Hears : (o : Option Row) (m : MultiSelect) → Hears m → Hears (settle_none o m)
unfolding settle_none
settle_none-Hears none m h = h
settle_none-Hears (some r) m h = h

settle-Hears : (place : Place) (m : MultiSelect) → Hears m → Hears (settle place (flip_at place m))
unfolding settle flip_at
settle-Hears (row n) m h = settle_row-Hears n _ _ h
settle-Hears none_of_the_above m h = settle_none-Hears _ _ h

-- Some row is ticked; the row of "None of the above" is.
abbrev pub any_ticked : List Row → Bool
any_ticked [] = false
any_ticked (r ∷ rows) = r.checked || any_ticked rows

abbrev pub none_ticked : Option Row → Bool
none_ticked none = false
none_ticked (some r) = r.checked

is_checked-none_ticked : (o : Option Row) → is_checked o ≡ none_ticked o
unfolding is_checked
is_checked-none_ticked none = refl
is_checked-none_ticked (some r) = refl

is_nil-any_ticked : (rows : List Row) → is_nil (ticked rows) ≡ not (any_ticked rows)
unfolding is_nil ticked
is_nil-any_ticked [] = refl
is_nil-any_ticked (r ∷ rows) =
    if_cases (λ (l : List String). is_nil l ≡ not (r.checked || any_ticked rows)) r.checked _ _
      (λ e. ground (arith, e)) (λ e. ground (arith, e, is_nil-any_ticked rows))

-- A click on a row, which the user makes or a screen reader does at a time; or a text that is typed.
pub data Input : Type 0 where
  click : Bool → Place → Input
  spoken_click : ℕ → Place → Input
  typed : String → Input

module _ (accepts : Bool → String → Bool) where
  -- A screen reader clicks beside the box.
  pub step : Input → MultiSelect → MultiSelect
  step (click on_box place) m = on_click accepts none on_box place m
  step (spoken_click time place) m = on_click accepts (some time) false place m
  step (typed text) m = on_other accepts text m

  pub run : List Input → MultiSelect → MultiSelect
  run [] m = m
  run (i ∷ is) m = run is (step i m)

  -- The text of the other answer is one that the question accepts.
  abbrev pub other_accepted : Bool → Option String → Bool
  other_accepted modern none = false
  other_accepted modern (some text) = accepts modern text

  -- A row, "None of the above" or a text is chosen.
  abbrev pub is_chosen : MultiSelect → Bool
  is_chosen m = none_ticked m.none_row || any_ticked m.rows || other_accepted m.modern m.other

  -- The button works exactly while something is chosen, and "None of the above" stands alone.
  pub record IsReady (m : MultiSelect) : Type 0 where
    pub button : m.disabled ≡ not (is_chosen m)
    pub hears : m.modern ≡ false → m.listening ≡ not m.disabled
    pub alone : none_ticked m.none_row && any_ticked m.rows ≡ false

  is_nil-values :
      (rows : List Row) (modern : Bool) (other : Option String)
      → is_nil (ticked rows ++ other_values accepts modern other)
        ≡ not (any_ticked rows || other_accepted modern other)
  unfolding is_nil ticked other_values
  is_nil-values [] modern none = refl
  is_nil-values [] modern (some text) =
      if_cases (λ (l : List String). is_nil l ≡ not (accepts modern text)) (accepts modern text) _ _
        (λ e. ground (arith, e)) (λ e. ground (arith, e))
  is_nil-values (r ∷ rows) modern other =
      if_cases
        (λ (l : List String).
          is_nil (l ++ other_values accepts modern other)
          ≡ not ((r.checked || any_ticked rows) || other_accepted modern other))
        r.checked _ _ (λ e. ground (arith, e))
        (λ e. ground (arith, e, is_nil-values rows modern other))

  nothing_chosen-is_chosen : (m : MultiSelect) → nothing_chosen accepts m ≡ not (is_chosen m)
  unfolding nothing_chosen values
  nothing_chosen-is_chosen m =
      ground (arith, is_checked-none_ticked m.none_row, is_nil-values m.rows m.modern m.other)

  alone-Exclusive :
      (m : MultiSelect)
      → (is_checked m.none_row && not (is_nil (ticked m.rows)))
        ≡ (none_ticked m.none_row && any_ticked m.rows)
  alone-Exclusive m = ground (arith, is_checked-none_ticked m.none_row, is_nil-any_ticked m.rows)

  -- Whatever it was, after `wl` the button follows the choice.
  update_button-IsReady :
      (m : MultiSelect)
      → (m.modern ≡ false → m.listening ≡ not m.disabled)
      → Exclusive m
      → IsReady (update_button accepts m)
  unfolding update_button Exclusive
  update_button-IsReady m h x = record {
    button = nothing_chosen-is_chosen m;
    hears = λ e. ground (arith, e, h);
    alone = sym (alone-Exclusive m) ∙ x;
  }

  on_click-IsReady :
      (o : Option ℕ) (on_box : Bool) (place : Place) (m : MultiSelect)
      → (o ≡ none) ⊎ (on_box ≡ false)
      → IsReady m
      → IsReady (on_click accepts o on_box place m)
  unfolding on_click Exclusive
  on_click-IsReady none on_box place m k r =
      update_button-IsReady _ (settle-Hears place m r.hears)
        (settle-Exclusive place m (alone-Exclusive m ∙ r.alone))
  on_click-IsReady (some time) true place m k r = elim k [
    | inl e ↦ absurd (ground (arith, e))
    | inr e ↦ absurd (ground (arith, e))
  ]
  on_click-IsReady (some time) false place m k r =
      let again : MultiSelect = record m { last_spoken = time } in
      if_elim IsReady (ltb (time - m.last_spoken) 300) _ _ r (
        update_button-IsReady _ (settle-Hears place again r.hears)
          (settle-Exclusive place again (alone-Exclusive m ∙ r.alone)))

  type_in-IsReady :
      (o : Option String) (text : String) (m : MultiSelect)
      → IsReady m
      → IsReady (type_in accepts o text m)
  unfolding type_in Exclusive
  type_in-IsReady none text m r = r
  type_in-IsReady (some old) text m r =
      update_button-IsReady (record m { other = some text }) r.hears (alone-Exclusive m ∙ r.alone)

  step-IsReady : (i : Input) (m : MultiSelect) → IsReady m → IsReady (step i m)
  unfolding step on_other
  step-IsReady (click on_box place) m r = on_click-IsReady none on_box place m (inl refl) r
  step-IsReady (spoken_click time place) m r =
      on_click-IsReady (some time) false place m (inr refl) r
  step-IsReady (typed text) m r = type_in-IsReady m.other text m r

  -- If it was so before, then whatever rows are clicked, by hand or by a screen reader beside the
  -- boxes, and whatever text is typed, the button works exactly while a row, "None of the above" or a
  -- text that the question accepts is chosen, and "None of the above" is not ticked with a row.
  pub run-IsReady :
      (is : List Input) (m : MultiSelect)
      → IsReady m
      → IsReady (run is m) × (hands_in (run is m) ≡ is_chosen (run is m))
  unfolding run hands_in
  run-IsReady [] m r = (
    r,
    if_cases (λ (b : Bool). b ≡ is_chosen m) m.modern _ _ (λ _. ground (arith, r.button))
        (λ e. ground (arith, r.hears e, r.button)),
  )
  run-IsReady (i ∷ is) m r = run-IsReady is (step i m) (step-IsReady i m r)
