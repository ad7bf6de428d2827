-- ===== src/Prompt/Selection.antt =====
-- The selection model `np`: a list of items of which at most one is selected, and which are told
-- whether they are.
pub mod Marked
mod Examples
use demolition_app.Base.{
  ℕ, zero, suc, ◌+◌, Bool, true, false, not, ◌==◌, Option, some, none, List, [], ◌∷◌, ◌++◌, length,
  get_elem?, if◌then◌else◌,
}
use demolition_app.Base.Int.{ℤ, pos, negsuc}
use demolition_app.Prompt.Container.{insert_at}

-- `Fc`, `Sc`, what each item was last told of its selection by `xd` or `jl`, and the number of
-- "select" events. An item is an object, here a number.
pub record Selection : Type 0 where
  pub items : List ℕ
  pub selected : Option ℕ
  pub marks : ℕ → Bool
  pub selects : ℕ

-- `op`
pub mark : Option ℕ → Bool → Selection → Selection
mark o b s = record s {
  marks = elim o [ none ↦ s.marks | some x ↦ λ y. if y == x then b else s.marks y ];
}

-- `eb(Fc,a)`: the list without the first occurrence, and whether there was one.
pub erase : ℕ → List ℕ → List ℕ
erase a [] = []
erase a (x ∷ xs) = if x == a then xs else x ∷ erase a xs

pub contains : ℕ → List ℕ → Bool
contains a [] = false
contains a (x ∷ xs) = if x == a then true else contains a xs

-- `a==Sc`, with no item for null.
pub is_selected : Option ℕ → Option ℕ → Bool
is_selected none none = true
is_selected none (some y) = false
is_selected (some x) none = false
is_selected (some x) (some y) = x == y

-- `Wa(Fc,a)`
pub position : ℕ → List ℕ → ℤ
position a [] = negsuc 0
position a (x ∷ xs) =
    let rest = position a xs in
    if x == a then pos 0 else (elim rest [ pos i ↦ pos (suc i) | negsuc n ↦ negsuc n ])

-- `Of`
pub item_at : ℤ → Selection → Option ℕ
item_at (pos i) s = get_elem? s.items i
item_at (negsuc n) s = none

-- `Ge`
pub add_item_at : ℕ → ℕ → Selection → Selection
unfolding mark
add_item_at a b s₀ = let s = mark (some a) false s₀ in record s { items = insert_at b a s.items }

-- `Gd`
pub add_item : ℕ → Selection → Selection
unfolding add_item_at
add_item a s = add_item_at a (length s.items) s

-- `mp`
pub mark_all : List ℕ → Selection → Selection
unfolding mark
mark_all [] s = s
mark_all (a ∷ xs) s = mark_all xs (mark (some a) false s)

pub add_items : List ℕ → Selection → Selection
unfolding mark_all
add_items xs s₀ = let s = mark_all xs s₀ in record s { items = s.items ++ xs }

-- `removeItem`
pub remove_item : ℕ → Selection → Selection
unfolding erase contains is_selected
remove_item a s =
    let s' = record s { items = erase a s.items } in
    let told = record s' { selected = none; selects = suc s.selects } in
    if contains a s.items then if is_selected (some a) s.selected then told else s' else s

-- `ve`
pub select_item : Option ℕ → Selection → Selection
unfolding mark is_selected
select_item a s =
    let moved = mark a true (record (mark s.selected false s) { selected = a }) in
    let s' = if is_selected a s.selected then s else moved in record s' { selects = suc s'.selects }

-- `fc` and `wb`
pub selected_index : Selection → ℤ
unfolding position
selected_index s = elim s.selected [ none ↦ negsuc 0 | some a ↦ position a s.items ]

pub select_index : ℤ → Selection → Selection
unfolding item_at select_item
select_index i s = select_item (item_at i s) s

-- `clear`
pub clear : Selection → Selection
clear s = record s { items = []; selected = none }

-- `new np`
pub new_selection : List ℕ → (ℕ → Bool) → Selection
unfolding add_items
new_selection xs marks =
    add_items xs (record { items = []; selected = none; marks = marks; selects = 0 })
