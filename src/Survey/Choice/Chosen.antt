-- ===== src/Survey/Choice/Chosen.antt =====
-- What "Next" hands on in the older design.
use demolition_app.Base.{
  ℕ, zero, suc, ◌+◌, ◌≤◌, ◌<◌, ltb, ltb→lt, ◌≡◌, refl, ap, sym, subst, Bool, true, false, not, ◌&&◌,
  if◌then◌else◌, if_elim, if_cases, Option, none, some, ◌>>=◌, List, [], ◌∷◌, length, arith,
}
use demolition_app.Survey.TextField.{Text}
use demolition_app.Survey.Choice.{
  Target, row, other, Choice, clear_rows, clear, select, next_found, first_selected,
  selected_target, is_valid, hand_on, choose_row, choose_other, hand_on_some, on_next, on_row,
  change_next, on_change, on_focus, on_submit,
}

abbrev pub count : List Bool → ℕ
count [] = 0
count (b ∷ bs) = (if b then 1 else 0) + count bs

abbrev pub is_found : Option Target → Bool
is_found none = false
is_found (some t) = true

-- At most one of the rows and the cell is selected, and while "Next" is enabled one is.
pub record IsChosen (m : Choice) : Type 0 where
  pub older : m.has_next && not m.modern ≡ true
  pub working : m.rows_enabled ≡ true
  pub single : count m.rows + (if m.other_selected then 1 else 0) ≤ 1
  pub chosen :
      m.next_disabled ≡ false
      → is_found (selected_target (first_selected m.rows) m.other_selected) ≡ true

count-clear_rows : (bs : List Bool) → count (clear_rows bs) ≡ 0
unfolding clear_rows
count-clear_rows [] = refl
count-clear_rows (b ∷ bs) = omega (arith, count-clear_rows bs)

count-select : (n : ℕ) (bs : List Bool) → count (select n (clear_rows bs)) ≤ 1
unfolding clear_rows select
count-select n [] = omega arith
count-select zero (b ∷ bs) = omega (arith, count-clear_rows bs)
count-select (suc n) (b ∷ bs) = omega (arith, count-select n bs)

first_selected-clear_rows : (bs : List Bool) → first_selected (clear_rows bs) ≡ none
unfolding first_selected clear_rows next_found
first_selected-clear_rows [] = refl
first_selected-clear_rows (b ∷ bs) = ap next_found (first_selected-clear_rows bs)

first_selected-select :
    (n : ℕ) (bs : List Bool) → n < length bs → first_selected (select n (clear_rows bs)) ≡ some n
unfolding first_selected clear_rows select next_found
first_selected-select n [] h = absurd (omega arith)
first_selected-select zero (b ∷ bs) h = refl
first_selected-select (suc n) (b ∷ bs) h =
    ap next_found (first_selected-select n bs (omega (arith, h)))

found_cell : (o : Option ℕ) → is_found (selected_target o true) ≡ true
unfolding selected_target
found_cell none = refl
found_cell (some n) = refl

-- What the user does; to type the user focuses the field, and its clear button does so too.
pub data Input : Type 0 where
  pick : ℕ → Input
  typed : Text → Input
  cleared next submitted : Input

module _ (accepts : Bool → Text → Bool) where
  pub step : Input → Choice → Option Choice
  unfolding on_row on_change on_focus on_next on_submit
  step (pick n) m = some (if ltb n (length m.rows) then on_row accepts n m else m)
  step (typed text) m = some (on_change accepts (record (on_focus accepts m) { text = text }))
  step cleared m = some (on_focus accepts (on_change accepts (record m { text = [] })))
  step next m = on_next accepts m
  step submitted m = some (on_submit accepts m)

  pub run : List Input → Choice → Option Choice
  unfolding step
  run [] m = some m
  run (i ∷ is) m = step i m >>= run is

  choose_row-IsChosen :
      (n : ℕ) (m : Choice) → n < length m.rows → IsChosen m → IsChosen (choose_row accepts n m)
  unfolding choose_row clear selected_target
  choose_row-IsChosen n m h c = record {
    older = c.older;
    working = c.working;
    single = ground (arith, count-select n m.rows, count-clear_rows m.rows);
    chosen = λ _.
        if_cases (λ (bs : List Bool). is_found (selected_target (first_selected bs) false) ≡ true)
          m.rows_enabled _ _ (λ _. rw (first_selected-select n m.rows h) refl)
          (λ e. absurd (ground (arith, e, c.working)));
  }

  choose_other-IsChosen :
      (m : Choice)
      → m.has_next && not m.modern ≡ true
      → m.rows_enabled ≡ true
      → IsChosen (choose_other accepts m)
  unfolding choose_other clear selected_target
  choose_other-IsChosen m o w = record {
    older = o;
    working = w;
    single = omega (arith, count-clear_rows m.rows);
    chosen = λ _. rw (first_selected-clear_rows m.rows) refl;
  }

  -- The field was focused, so that its cell is selected.
  change_next-IsChosen :
      (m : Choice) → IsChosen m → m.other_selected ≡ true → IsChosen (change_next accepts m)
  unfolding change_next
  change_next-IsChosen m c k =
      if_cases IsChosen m.modern _ _ (λ e. absurd (ground (arith, e, c.older)))
        (λ _. record {
          older = c.older;
          working = c.working;
          single = c.single;
          chosen = λ _.
              subst (λ b. is_found (selected_target (first_selected m.rows) b) ≡ true) (sym k)
                (found_cell (first_selected m.rows));
        })

  on_focus-IsChosen :
      (m : Choice)
      → m.has_next && not m.modern ≡ true
      → m.rows_enabled ≡ true
      → IsChosen (on_focus accepts m) × ((on_focus accepts m).other_selected ≡ true)
  unfolding on_focus
  on_focus-IsChosen m o w =
      if_cases (λ (n : Choice). IsChosen n × (n.other_selected ≡ true)) (m.has_next && not m.modern)
        _ _ (λ _. (choose_other-IsChosen m o w, refl)) (λ e. absurd (ground (arith, e, o)))

  on_change-IsChosen :
      (m : Choice) → IsChosen m → m.other_selected ≡ true → IsChosen (on_change accepts m)
  unfolding on_change
  on_change-IsChosen m c k =
      if_cases IsChosen m.has_next _ _ (λ _. change_next-IsChosen m c k)
        (λ e. absurd (ground (arith, e, c.older)))

  on_change-older :
      (m : Choice)
      → m.has_next && not m.modern ≡ true
      → m.rows_enabled ≡ true
      → ((on_change accepts m).has_next && not (on_change accepts m).modern ≡ true)
        × ((on_change accepts m).rows_enabled ≡ true)
  unfolding on_change change_next
  on_change-older m o w =
      let P : Choice → Type 0 =
        λ n. (n.has_next && not n.modern ≡ true) × (n.rows_enabled ≡ true) in
      if_cases P m.has_next _ _
        (λ _. if_cases P m.modern _ _ (λ e. absurd (ground (arith, e, o))) (λ _. (o, w)))
        (λ e. absurd (ground (arith, e, o)))

  on_row-IsChosen :
      (n : ℕ) (m : Choice) → n < length m.rows → IsChosen m → IsChosen (on_row accepts n m)
  unfolding on_row
  on_row-IsChosen n m h c =
      if_cases IsChosen (m.has_next && not m.modern) _ _ (λ _. choose_row-IsChosen n m h c)
        (λ e. absurd (ground (arith, e, c.older)))

  hand_on-IsChosen : (t : Target) (m : Choice) → IsChosen m → IsChosen (hand_on accepts t m)
  unfolding hand_on
  hand_on-IsChosen (row n) m c =
      if_elim IsChosen m.rows_enabled _ _
        (record { older = c.older; working = c.working; single = c.single; chosen = c.chosen }) c
  hand_on-IsChosen other m c =
      if_elim IsChosen (is_valid accepts m) _ _
        (record { older = c.older; working = c.working; single = c.single; chosen = c.chosen }) c

  -- The result is there, and is as it should be.
  abbrev pub Gives : Option Choice → Type 0
  Gives o = (n : Choice) × (o ≡ some n) × IsChosen n

  hand_on_some-Gives :
      (o : Option Target) (m : Choice)
      → is_found o ≡ true
      → IsChosen m
      → Gives (hand_on_some accepts o m)
  unfolding hand_on_some
  hand_on_some-Gives none m e c = absurd (ground (arith, e))
  hand_on_some-Gives (some t) m e c = (hand_on accepts t m, refl, hand_on-IsChosen t m c)

  on_next-Gives : (m : Choice) → IsChosen m → Gives (on_next accepts m)
  unfolding on_next
  on_next-Gives m c =
      if_cases Gives m.next_disabled _ _ (λ _. (m, refl, c))
        (λ e. hand_on_some-Gives _ m (c.chosen e) c)

  retext : (text : Text) (m : Choice) → IsChosen m → IsChosen (record m { text = text })
  retext text m c = record {
    older = c.older;
    working = c.working;
    single = c.single;
    chosen = c.chosen;
  }

  step-Gives : (i : Input) (m : Choice) → IsChosen m → Gives (step i m)
  unfolding step on_submit
  step-Gives (pick n) m c =
      let p : IsChosen (if ltb n (length m.rows) then on_row accepts n m else m) =
        if_cases IsChosen (ltb n (length m.rows)) _ _
          (λ e. on_row-IsChosen n m (ltb→lt n (length m.rows) e) c) (λ _. c) in
      (_, refl, p)
  step-Gives (typed text) m c =
      let f = on_focus-IsChosen m c.older c.working in
      (
        _,
        refl,
        on_change-IsChosen (record (on_focus accepts m) { text = text })
            (retext text (on_focus accepts m) f.0) f.1,
      )
  step-Gives cleared m c =
      let o = on_change-older (record m { text = [] }) c.older c.working in
      (_, refl, (on_focus-IsChosen (on_change accepts (record m { text = [] })) o.0 o.1).0)
  step-Gives next m c = on_next-Gives m c
  step-Gives submitted m c = (
    _,
    refl,
    hand_on-IsChosen other (if m.has_next && not m.modern then m else clear m) (
        if_cases IsChosen (m.has_next && not m.modern) _ _ (λ _. c)
          (λ e. absurd (ground (arith, e, c.older)))),
  )

  -- In the older design with a button "Next", once at most one of the rows and the cell of the field
  -- is selected, and one is when "Next" is enabled, it stays so whatever is picked, typed, cleared and
  -- handed in, and "Next" never fails.
  pub run-IsChosen : (is : List Input) (m : Choice) → IsChosen m → Gives (run is m)
  unfolding run
  run-IsChosen [] m c = (m, refl, c)
  run-IsChosen (i ∷ is) m c =
      let g : Gives (step i m) = step-Gives i m c in
      subst (λ o. Gives (o >>= run is)) (sym g.1) (run-IsChosen is g.0 g.2)
