-- ===== src/Prompt/Selection/Marked.antt =====
-- Which items are told that they are selected.
use demolition_app.Base.{
  ℕ, zero, suc, ◌≡◌, ◌≤◌, ◌≢◌, inl, inr, refl, sym, ◌∙◌, Bool, true, false, ◌==◌, Option, some,
  none, List, [], ◌∷◌, get_elem?, if◌then◌else◌, if_elim, if_cases, Bool-cases, arith,
}
use demolition_app.Base.Int.{ℤ, pos, negsuc}
use demolition_app.Prompt.Container.{insert_at}
use demolition_app.Prompt.Selection.{
  Selection, mark, erase, contains, is_selected, item_at, add_item_at, remove_item, select_item,
  select_index, clear, add_item, add_items, mark_all, new_selection,
}

-- The calls, where an item is added only while it is not in the list and not selected.
pub data Call : Selection → Selection → Type 0 where
  adds :
      {s : Selection} (a b : ℕ)
      → contains a s.items ≡ false
      → is_selected (some a) s.selected ≡ false
      → Call s (add_item_at a b s)
  removes : {s : Selection} (a : ℕ) → Call s (remove_item a s)
  selects : {s : Selection} (i : ℤ) → Call s (select_index i s)
  clears : {s : Selection} → Call s (clear s)

pub data Reaches : Selection → Selection → Type 0 where
  done : {s : Selection} → Reaches s s
  next : {s t u : Selection} → Call s t → Reaches t u → Reaches s u

-- The item stands in the list no more than once.
abbrev count : ℕ → List ℕ → ℕ
count a [] = 0
count a (x ∷ xs) = if x == a then suc (count a xs) else count a xs

-- No item stands twice in the list, the selected item stands in it, and of the items of the list
-- exactly the selected one was last told that it is selected.
pub record IsMarked (s : Selection) : Type 0 where
  pub once : (a : ℕ) → count a s.items ≤ 1
  pub held : (a : ℕ) → s.selected ≡ some a → contains a s.items ≡ true
  pub marked : (a : ℕ) → contains a s.items ≡ true → s.marks a ≡ is_selected (some a) s.selected

contains-insert_at :
    (a b : ℕ) (xs : List ℕ) (c : ℕ)
    → contains c (insert_at b a xs) ≡ (if a == c then true else contains c xs)
unfolding insert_at contains
contains-insert_at a b [] c = refl
contains-insert_at a zero (x ∷ xs) c = refl
contains-insert_at a (suc b) (x ∷ xs) c = ground (arith, contains-insert_at a b xs c)

count-insert_at :
    (a b : ℕ) (xs : List ℕ) (c : ℕ)
    → count c (insert_at b a xs) ≡ (if a == c then suc (count c xs) else count c xs)
unfolding insert_at
count-insert_at a b [] c = refl
count-insert_at a zero (x ∷ xs) c = refl
count-insert_at a (suc b) (x ∷ xs) c = ground (arith, count-insert_at a b xs c)

count_absent : (a : ℕ) (xs : List ℕ) → contains a xs ≡ false → count a xs ≡ 0
unfolding contains
count_absent a [] h = refl
count_absent a (x ∷ xs) h = ground (arith, h, count_absent a xs)

count_held : (a : ℕ) (xs : List ℕ) → contains a xs ≡ true → 1 ≤ count a xs
unfolding contains
count_held a [] h = absurd (ground (arith, h))
count_held a (x ∷ xs) h = ground (arith, h, count_held a xs)

count-erase : (a : ℕ) (xs : List ℕ) (c : ℕ) → count c (erase a xs) ≤ count c xs
unfolding erase
count-erase a [] c = omega arith
count-erase a (x ∷ xs) c = ground (arith, count-erase a xs c)

contains-erase_other :
    (a : ℕ) (xs : List ℕ) (c : ℕ) → c ≢ a → contains c (erase a xs) ≡ contains c xs
unfolding erase contains
contains-erase_other a [] c d = refl
contains-erase_other a (x ∷ xs) c d = ground (arith, d, contains-erase_other a xs c d)

contains-erase_same : (a : ℕ) (xs : List ℕ) → count a xs ≤ 1 → contains a (erase a xs) ≡ false
unfolding erase contains
contains-erase_same a [] h = refl
contains-erase_same a (x ∷ xs) h = elim (Bool-cases (contains a xs)) [
  | inl e ↦ ground (arith, h, e, count_held a xs e, contains-erase_same a xs)
  | inr e ↦ ground (arith, h, e, contains-erase_same a xs)
]

contains-erase_held :
    (a : ℕ) (xs : List ℕ) (c : ℕ) → contains c (erase a xs) ≡ true → contains c xs ≡ true
unfolding erase contains
contains-erase_held a [] c h = h
contains-erase_held a (x ∷ xs) c h = ground (arith, h, contains-erase_held a xs c)

-- When no item stands twice, what is still there after an item was erased is another one.
erase_other :
    (a : ℕ) (xs : List ℕ) (c : ℕ) → count a xs ≤ 1 → contains c (erase a xs) ≡ true → c ≢ a
erase_other a xs c one h e = ground (arith, h, e, contains-erase_same a xs one)

contains-get_elem? : (xs : List ℕ) (i a : ℕ) → get_elem? xs i ≡ some a → contains a xs ≡ true
unfolding contains
contains-get_elem? [] i a h = absurd (ground (arith, h))
contains-get_elem? (x ∷ xs) zero a h = ground (arith, h)
contains-get_elem? (x ∷ xs) (suc i) a h = ground (arith, contains-get_elem? xs i a h)

is_selected_eq : (o p : Option ℕ) → is_selected o p ≡ true → o ≡ p
unfolding is_selected
is_selected_eq none none h = refl
is_selected_eq none (some y) h = absurd (ground (arith, h))
is_selected_eq (some x) none h = absurd (ground (arith, h))
is_selected_eq (some x) (some y) h = ground (arith, h)

mark-marks :
    (o : Option ℕ) (b : Bool) (s : Selection) (c : ℕ)
    → (mark o b s).marks c ≡ (if is_selected (some c) o then b else s.marks c)
unfolding mark is_selected
mark-marks none b s c = refl
mark-marks (some x) b s c = refl

add_item_at-IsMarked :
    (a b : ℕ) (s : Selection)
    → contains a s.items ≡ false
    → is_selected (some a) s.selected ≡ false
    → IsMarked s
    → IsMarked (add_item_at a b s)
unfolding add_item_at mark
add_item_at-IsMarked a b s new free m = record {
  once = λ c. ground (arith, count-insert_at a b s.items c, count_absent a s.items new, m.once c);
  held = λ c e. ground (arith, contains-insert_at a b s.items c, m.held c e);
  marked = λ c h. ground (arith, contains-insert_at a b s.items c, h, m.marked c, free);
}

remove_item-IsMarked : (a : ℕ) (s : Selection) → IsMarked s → IsMarked (remove_item a s)
unfolding remove_item
remove_item-IsMarked a s m =
    if_elim IsMarked (contains a s.items) _ _
      (if_cases IsMarked (is_selected (some a) s.selected) _ _
        (λ e. record {
          once = λ c. ground (arith, count-erase a s.items c, m.once c);
          held = λ c h. absurd (ground (arith, h));
          marked = λ c h.
              m.marked c (contains-erase_held a s.items c h)
              ∙ rw (sym (is_selected_eq (some a) s.selected e))
                  (ground (arith, erase_other a s.items c (m.once a) h));
        })
        (λ e. record {
          once = λ c. ground (arith, count-erase a s.items c, m.once c);
          held =
              λ c h. contains-erase_other a s.items c (λ q. ground (arith, e, h, q)) ∙ m.held c h;
          marked = λ c h. m.marked c (contains-erase_held a s.items c h);
        }))
      m

select_item-IsMarked :
    (o : Option ℕ) (s : Selection)
    → ((a : ℕ) → o ≡ some a → contains a s.items ≡ true)
    → IsMarked s
    → IsMarked (select_item o s)
unfolding select_item mark
select_item-IsMarked o s held m =
    if_elim (λ s'. IsMarked (record s' { selects = suc s'.selects })) (is_selected o s.selected) _ _
      (record { once = m.once; held = m.held; marked = m.marked })
      (record {
        once = m.once;
        held = held;
        marked = λ c h.
            mark-marks o true (record (mark s.selected false s) { selected = o }) c
            ∙ ground (arith, mark-marks s.selected false s c, m.marked c h);
      })

item_at-held : (i : ℤ) (s : Selection) (a : ℕ) → item_at i s ≡ some a → contains a s.items ≡ true
unfolding item_at
item_at-held (pos i) s a e = contains-get_elem? s.items i a e
item_at-held (negsuc n) s a e = absurd (ground (arith, e))

empty-held : (c : ℕ) → contains c [] ≡ true → ⊥
unfolding contains
empty-held c h = ground (arith, h)

step-IsMarked : {s t : Selection} → Call s t → IsMarked s → IsMarked t
unfolding select_index clear
step-IsMarked (adds a b new free) m = add_item_at-IsMarked a b _ new free m
step-IsMarked (removes a) m = remove_item-IsMarked a _ m
step-IsMarked (selects {s = s} i) m = select_item-IsMarked (item_at i s) s (item_at-held i s) m
step-IsMarked clears m = record {
  once = λ c. omega arith;
  held = λ c e. absurd (ground (arith, e));
  marked = λ c h. absurd (empty-held c h);
}

-- From a model that is marked right, items that are new to it being added and selected by their
-- index, and any items removed, the list keeps no item twice, the selected item stands in it, and
-- exactly that one of its items was last told that it is selected.
Reaches-IsMarked : {s t : Selection} → Reaches s t → IsMarked s → IsMarked t
Reaches-IsMarked done m = m
Reaches-IsMarked (next st r) m = Reaches-IsMarked r (step-IsMarked st m)

pub select_item-selected : (o : Option ℕ) (s : Selection) → (select_item o s).selected ≡ o
unfolding select_item mark
select_item-selected o s =
    if_cases (λ (t : Selection). t.selected ≡ o) (is_selected o s.selected) _ _
      (λ e. sym (is_selected_eq o s.selected e)) (λ e. refl)

pub add_item_at-selected : (a b : ℕ) (s : Selection) → (add_item_at a b s).selected ≡ s.selected
unfolding add_item_at mark
add_item_at-selected a b s = refl

pub add_item-selected : (a : ℕ) (s : Selection) → (add_item a s).selected ≡ s.selected
unfolding add_item add_item_at mark
add_item-selected a s = refl

pub new_selection-selected :
    (a : ℕ) (marks : ℕ → Bool) → (new_selection (a ∷ []) marks).selected ≡ none
unfolding new_selection add_items mark_all mark
new_selection-selected a marks = refl

-- A removal that does not tell of a selection leaves it.
pub remove_item-selected :
    (a : ℕ) (s : Selection)
    → (if contains a s.items then is_selected (some a) s.selected else false) ≡ false
    → (remove_item a s).selected ≡ s.selected
unfolding remove_item
remove_item-selected a s h =
    if_cases (λ (t : Selection). t.selected ≡ s.selected) (contains a s.items) _ _
      (λ e.
        if_cases (λ (t : Selection). t.selected ≡ s.selected) (is_selected (some a) s.selected) _ _
          (λ f. absurd (ground (arith, h, e, f))) (λ f. refl))
      (λ e. refl)
