-- ===== src/Prompt/Container/Examples.antt =====
-- The theorems of the container at a menu of three controls.
use demolition_app.Base.{
  ℕ, ◌≡◌, refl, true, ◌&&◌, ◌==◌, ltb, some, none, [], ◌∷◌, if◌then◌else◌, get_elem?, arith,
}
use demolition_app.Prompt.Container.{Child, Container, index_of, move_child}
use demolition_app.Prompt.Container.Positions.{child_at, move_child-highlighted}

abbrev control : ℕ → Child
control id = record { id = id; visible = true; enabled = true; hovers = true }

abbrev menu : Container
menu = record {
  children = control 0 ∷ control 1 ∷ control 2 ∷ [];
  highlighted = some 1;
  opened = none;
}

-- The first control moves to the place of the highlighted one, and takes the highlight.
move_child-highlighted_example :
    child_at
      (move_child (control 0) 0 1 menu).children
      (move_child (control 0) 0 1 menu).highlighted
    ≡ (if ltb 0 1 && 1 == 1 then some (control 0) else get_elem? menu.children 1)
move_child-highlighted_example =
    move_child-highlighted (control 0) 0 1 1 menu refl refl (omega arith) (omega arith)
      (omega arith)

first_place : index_of 0 menu.children ≡ some 0
unfolding index_of
first_place = refl
