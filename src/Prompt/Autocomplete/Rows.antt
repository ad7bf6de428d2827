-- ===== src/Prompt/Autocomplete/Rows.antt =====
-- Which rows are highlighted and chosen.
use demolition_app.Base.{
  ℕ, zero, suc, ◌+◌, ◌-◌, ◌≡◌, ◌≤◌, ◌<◌, refl, sym, subst, Bool, true, false, ◌&&◌, Option, some,
  none, List, [], ◌∷◌, length, get_elem?, ◌||◌, All, ltb, leb, ◌==◌, if_elim, if_cases,
  if◌then◌else◌, arith,
}
use demolition_app.Prompt.Autocomplete.{
  Autocomplete, index_of_id, row_of_id, last_id, Target, stay, clear, try_row, next_target,
  prev_target, dismiss, dismiss_later, cancel_dismiss, run_cancel, is_disabled, hilite, go_to, move,
  finish_select, hilite_again, replace_rows, hilite_next, hilite_prev, hilited_row, select_hilited,
  on_select, render_rows,
}

pub data Input : Type 0 where
  hilites : Option ℕ → Input
  next prev dismisses dismisses_later cancels_dismiss runs_cancel : Input
  selects : Option ℕ → Input
  renders : List ℕ → Bool → Option Bool → Bool → Input

module _ (disabled : ℕ → Bool) where
  -- One call or event; with new rows comes a token or none.
  pub step : Input → Autocomplete → Autocomplete
  step (hilites id) a = (hilite disabled id a).0
  step next a = hilite_next disabled a
  step prev a = hilite_prev disabled a
  step dismisses a = dismiss a
  step dismisses_later a = dismiss_later a
  step cancels_dismiss a = cancel_dismiss a
  step runs_cancel a = run_cancel a
  step (selects id) a = on_select disabled id a
  step (renders rows preserve auto token) a =
      render_rows disabled rows preserve auto (record a { token = token })

  pub run : List Input → Autocomplete → Autocomplete
  run [] a = a
  run (i ∷ is) a = run is (step i a)

  abbrev pub Enabled : Option ℕ → Type 0
  Enabled none = Unit
  Enabled (some row) = disabled row ≡ false

  -- The highlighted row, if the id of the highlight stands for one, and all rows that were chosen,
  -- are enabled.
  pub record IsEnabled (a : Autocomplete) : Type 0 where
    pub hilited : Enabled (hilited_row disabled a)
    pub chosen : All Enabled a.updates

  Enabled-is_disabled : (o : Option ℕ) → is_disabled disabled o ≡ false → Enabled o
  Enabled-is_disabled none h = tt
  Enabled-is_disabled (some row) h = h

  hilite-IsEnabled :
      (id : Option ℕ) (a : Autocomplete) → IsEnabled a → IsEnabled (hilite disabled id a).0
  unfolding hilite hilited_row
  hilite-IsEnabled id a v =
      if_cases (λ (r : Autocomplete × Bool). IsEnabled r.0)
        (is_disabled disabled (row_of_id id a.first_id a.rows)) _ _ (λ e. v)
        (λ e. record { hilited = Enabled-is_disabled _ e; chosen = v.chosen })

  go_to-IsEnabled :
      (t : Target) (later : ℕ → Autocomplete) (a : Autocomplete)
      → IsEnabled a
      → ((id : ℕ) → IsEnabled (later id))
      → IsEnabled (go_to disabled t later a)
  unfolding go_to
  go_to-IsEnabled stay later a v h = v
  go_to-IsEnabled clear later a v h = hilite-IsEnabled none a v
  go_to-IsEnabled (try_row id) later a v h =
      if_elim IsEnabled (hilite disabled (some id) a).1 _ _ (hilite-IsEnabled (some id) a v) (h id)

  move-IsEnabled :
      (target : Option ℕ → Autocomplete → Target) (n : ℕ) (c : Option ℕ) (a : Autocomplete)
      → IsEnabled a
      → IsEnabled (move disabled target n c a)
  unfolding move
  move-IsEnabled target zero c a v = v
  move-IsEnabled target (suc n) c a v =
      go_to-IsEnabled (target c a) _ a v
        (λ id. move-IsEnabled target n (some id) _ (hilite-IsEnabled (some id) a v))

  dismiss-IsEnabled :
      (us : List (Option ℕ)) (a : Autocomplete)
      → All Enabled us
      → IsEnabled (record (dismiss a) { updates = us })
  unfolding dismiss hilited_row row_of_id index_of_id
  dismiss-IsEnabled us a c = record { hilited = tt; chosen = c }

  finish_select-IsEnabled :
      (o : Option ℕ) (a : Autocomplete)
      → Enabled o
      → IsEnabled a
      → IsEnabled (finish_select disabled o a)
  unfolding finish_select dismiss_later hilited_row
  finish_select-IsEnabled none a e v = dismiss-IsEnabled (none ∷ a.updates) a (tt, v.chosen)
  finish_select-IsEnabled (some row) a e v =
      if_elim (λ (b : Autocomplete). IsEnabled (record b { updates = some row ∷ b.updates }))
        a.again _ _ (record { hilited = v.hilited; chosen = (e, v.chosen) })
        (dismiss-IsEnabled (some row ∷ a.updates) a (e, v.chosen))

  select_hilited-IsEnabled :
      (a : Autocomplete) → IsEnabled a → IsEnabled (select_hilited disabled a)
  unfolding select_hilited
  select_hilited-IsEnabled a v = finish_select-IsEnabled (hilited_row disabled a) a v.hilited v

  on_select-IsEnabled :
      (id : Option ℕ) (a : Autocomplete) → IsEnabled a → IsEnabled (on_select disabled id a)
  unfolding on_select
  on_select-IsEnabled none a v = select_hilited-IsEnabled a v
  on_select-IsEnabled (some id) a v =
      if_elim IsEnabled (is_disabled disabled (row_of_id (some id) a.first_id a.rows)) _ _ v
        (select_hilited-IsEnabled _ (if_elim IsEnabled _ _ _ (hilite-IsEnabled (some id) a v) v))

  hilite_again-IsEnabled :
      (d : Option ℕ) (auto : Bool) (a : Autocomplete)
      → IsEnabled a
      → IsEnabled (hilite_again disabled d auto a)
  unfolding hilite_again hilite_next
  hilite_again-IsEnabled none auto a v =
      if_elim IsEnabled auto _ _ (move-IsEnabled next_target (length a.rows) a.hilited a v) v
  hilite_again-IsEnabled (some i) auto a v = hilite-IsEnabled (some (a.first_id + i)) a v

  same_rows-IsEnabled :
      (token dismissing : Bool) (cancels : ℕ) (a : Autocomplete)
      → IsEnabled a
      → IsEnabled (record a { token = token; dismissing = dismissing; cancels = cancels })
  unfolding hilited_row
  same_rows-IsEnabled token dismissing cancels a v = record {
    hilited = v.hilited;
    chosen = v.chosen;
  }

  step-IsEnabled : (i : Input) (a : Autocomplete) → IsEnabled a → IsEnabled (step i a)
  unfolding step hilite_next hilite_prev dismiss_later cancel_dismiss run_cancel render_rows
      hilited_row row_of_id index_of_id dismiss replace_rows
  step-IsEnabled (hilites id) a v = hilite-IsEnabled id a v
  step-IsEnabled next a v = move-IsEnabled next_target (length a.rows) a.hilited a v
  step-IsEnabled prev a v = move-IsEnabled prev_target (length a.rows) a.hilited a v
  step-IsEnabled dismisses a v = record { hilited = tt; chosen = v.chosen }
  step-IsEnabled dismisses_later a v = same_rows-IsEnabled a.token true a.cancels a v
  step-IsEnabled cancels_dismiss a v =
      if_elim IsEnabled a.dismissing _ _ (same_rows-IsEnabled a.token false a.cancels a v)
        (same_rows-IsEnabled a.token a.dismissing (suc a.cancels) a v)
  step-IsEnabled runs_cancel a v =
      if_elim IsEnabled (a.cancels == 0) _ _ v
        (same_rows-IsEnabled a.token false (a.cancels - 1) a v)
  step-IsEnabled (selects id) a v = on_select-IsEnabled id a v
  step-IsEnabled (renders rows preserve auto token) a v =
      let b = replace_rows rows (record a { token = token }) in
      let fresh : IsEnabled b = record { hilited = tt; chosen = v.chosen } in
      if_elim IsEnabled (leb 1 (length rows) && token) _ b
        (hilite_again-IsEnabled (if preserve then index_of_id a.hilited a.first_id a.rows else none)
          (elim auto [ none ↦ a.auto_hilite | some g ↦ g ]) b fresh)
        fresh

  run-IsEnabled_from : (is : List Input) (a : Autocomplete) → IsEnabled a → IsEnabled (run is a)
  unfolding run
  run-IsEnabled_from [] a v = v
  run-IsEnabled_from (i ∷ is) a v = run-IsEnabled_from is (step i a) (step-IsEnabled i a v)

-- `new pn`, with its settings.
pub new_autocomplete : Bool → Bool → Bool → Bool → Autocomplete
new_autocomplete auto_hilite allow_free wrap again = record {
  rows = [];
  first_id = 0;
  hilited = none;
  token = false;
  dismissing = false;
  cancels = 0;
  auto_hilite = auto_hilite;
  allow_free = allow_free;
  wrap = wrap;
  again = again;
  updates = [];
}

-- Whatever is called and with whatever ids, a row that is highlighted or was chosen is enabled.
run-IsEnabled :
    (disabled : ℕ → Bool) (is : List Input) (auto_hilite allow_free wrap again : Bool)
    → IsEnabled disabled (run disabled is (new_autocomplete auto_hilite allow_free wrap again))
unfolding new_autocomplete hilited_row row_of_id index_of_id
run-IsEnabled disabled is auto_hilite allow_free wrap again =
    run-IsEnabled_from disabled is (new_autocomplete auto_hilite allow_free wrap again)
      (record { hilited = tt; chosen = tt })

row_of_id-none :
    (first d : ℕ) (rows : List ℕ) → length rows ≤ d → row_of_id (some (first + d)) first rows ≡ none
unfolding row_of_id index_of_id
row_of_id-none first d rows h =
    if_cases (λ (o : Option ℕ). (elim o [ none ↦ none | some i ↦ get_elem? rows i ]) ≡ none)
      (ltb (first + d) first || leb (length rows) (first + d - first)) _ _ (λ e. refl)
      (λ e. absurd (ground (arith, e, h)))

next_target-beyond : (c : ℕ) (a : Autocomplete) → last_id a < c → next_target (some c) a ≡ stay
unfolding next_target
next_target-beyond c a h = ground (arith, h)

move-beyond :
    (disabled : ℕ → Bool) (n c : ℕ) (a : Autocomplete)
    → last_id a < c
    → move disabled next_target n (some c) a ≡ a
unfolding move go_to
move-beyond disabled zero c a h = refl
move-beyond disabled (suc n) c a h = rw (next_target-beyond c a h) refl

hilite-beyond :
    (disabled : ℕ → Bool) (d : ℕ) (b : Autocomplete)
    → length b.rows ≤ d
    → (hilite disabled (some (b.first_id + d)) b).0 ≡ record b { hilited = some (b.first_id + d) }
unfolding hilite
hilite-beyond disabled d b short =
    if_cases (λ (r : Autocomplete × Bool). r.0 ≡ record b { hilited = some (b.first_id + d) })
      (is_disabled disabled (row_of_id (some (b.first_id + d)) b.first_id b.rows)) _ _
      (λ e. absurd (ground (arith, e, row_of_id-none b.first_id d b.rows short))) (λ e. refl)

-- An id beyond the rows can be highlighted, and then the key to the next row does nothing.
beyond_rows :
    (disabled : ℕ → Bool) (d : ℕ) (auto : Bool) (b : Autocomplete)
    → 1 ≤ length b.rows
    → length b.rows ≤ d
    → (hilited_row disabled (hilite_again disabled (some d) auto b) ≡ none)
      × (hilite_next disabled (hilite_again disabled (some d) auto b)
          ≡ hilite_again disabled (some d) auto b)
unfolding hilite_again hilited_row hilite_next
beyond_rows disabled d auto b some_rows short =
    let c = record b { hilited = some (b.first_id + d) } in
    subst (λ x. (hilited_row disabled x ≡ none) × (hilite_next disabled x ≡ x))
      (sym (hilite-beyond disabled d b short))
      (
        row_of_id-none b.first_id d b.rows short,
        move-beyond disabled (length b.rows) (b.first_id + d) c (omega (arith, some_rows, short)),
      )

-- When the highlight shall stay and its row had an index that the new rows do not reach, then no
-- row is highlighted, though an id is, and the key to the next row does nothing.
pub render_rows-lost :
    (disabled : ℕ → Bool) (rows : List ℕ) (auto : Option Bool) (a : Autocomplete) (d : ℕ)
    → index_of_id a.hilited a.first_id a.rows ≡ some d
    → 1 ≤ length rows
    → length rows ≤ d
    → a.token ≡ true
    → (hilited_row disabled (render_rows disabled rows true auto a) ≡ none)
      × (hilite_next disabled (render_rows disabled rows true auto a)
          ≡ render_rows disabled rows true auto a)
unfolding render_rows replace_rows
render_rows-lost disabled rows auto a d e some_rows short token =
    if_cases (λ b. (hilited_row disabled b ≡ none) × (hilite_next disabled b ≡ b))
      (leb 1 (length rows) && a.token) _ _
      (λ h. rw e (
        beyond_rows disabled d (elim auto [ none ↦ a.auto_hilite | some g ↦ g ])
          (replace_rows rows a) some_rows short))
      (λ h. absurd (ground (arith, h, some_rows, token)))
