-- ===== src/Prompt/Container.antt =====
-- The container `Ao` of controls: its children, the index of the highlighted one, and how the keys
-- move it.
pub mod Positions
pub mod Search
mod Examples
use demolition_app.Base.{
  ℕ, zero, suc, ◌+◌, ◌-◌, ◌%◌, Bool, true, false, not, ◌&&◌, ◌||◌, Option, some, none, List, [],
  ◌∷◌, ◌==◌, ltb, leb, if◌then◌else◌, length, get_elem?,
}

-- What a container reads of a child: which object it is, `S`, `isEnabled` and `go(a,2)`.
pub record Child : Type 0 where
  pub id : ℕ
  pub visible : Bool
  pub enabled : Bool
  pub hovers : Bool

-- `Ba`, `va` and the index of `Ga`; none stands for -1.
pub record Container : Type 0 where
  pub children : List Child
  pub highlighted : Option ℕ
  pub opened : Option ℕ

-- `Wa`, the position of a child.
pub index_of : ℕ → List Child → Option ℕ
index_of id [] = none
index_of id (c ∷ cs) =
    if c.id == id then some 0 else (elim (index_of id cs) [ none ↦ none | some i ↦ some (suc i) ])

module _ {ℓ} {A : Type ℓ} where
  -- `splice(b,0,x)`
  unfoldable pub insert_at : ℕ → A → List A → List A
  insert_at b x [] = x ∷ []
  insert_at zero x (y ∷ ys) = x ∷ y ∷ ys
  insert_at (suc b) x (y ∷ ys) = y ∷ insert_at b x ys

  -- `splice(d,1)`
  unfoldable pub erase_at : ℕ → List A → List A
  erase_at d [] = []
  erase_at zero (y ∷ ys) = ys
  erase_at (suc d) (y ∷ ys) = y ∷ erase_at d ys

-- `Math.min(Xn(this)-1,b)`
abbrev pub min : ℕ → ℕ → ℕ
min m n = if leb m n then m else n

-- The end of `Af`: the index after a child came from `from`, the number of children for a new one,
-- to `b`.
pub moved_index : ℕ → ℕ → ℕ → Option ℕ → Option ℕ
moved_index count from b none = none
moved_index count from b (some v) =
    if from == v
    then some (min (count - 1) b)
    else if ltb v from && leb b v
    then some (v + 1)
    else if ltb from v && ltb v b
    then some (v - 1)
    else some v

-- `Af` for a child that is not in the container, and for the child at the index d of it.
pub add_new : Child → ℕ → Container → Container
add_new child b c =
    let cs = insert_at b child c.children in
    record c { children = cs; highlighted = moved_index (length cs) (length cs) b c.highlighted }

pub move_child : Child → ℕ → ℕ → Container → Container
move_child child d b c =
    let cs = insert_at b child (erase_at d c.children) in
    record c { children = cs; highlighted = moved_index (length cs) d b c.highlighted }

-- `Af`; it throws for an index out of bounds.
pub add_child_at : Child → ℕ → Container → Option Container
unfolding add_new move_child
add_child_at child b c =
    if ltb (length c.children) b
    then none
    else some (elim (index_of child.id c.children) [
      | none ↦ add_new child b c
      | some d ↦ move_child child d b c
    ])

-- The index after the child at d was removed.
pub removed_index : ℕ → Option ℕ → Option ℕ
removed_index d none = none
removed_index d (some v) = if d == v then none else if ltb d v then some (v - 1) else some v

-- `removeChild` of the child at d.
pub remove_at : ℕ → Container → Container
unfolding removed_index
remove_at d c = record c {
  children = erase_at d c.children;
  highlighted = removed_index d c.highlighted;
}

-- `removeChild`; it throws for a child of another parent.
pub remove_child : ℕ → Container → Option Container
unfolding remove_at
remove_child id c = elim (index_of id c.children) [ none ↦ none | some d ↦ some (remove_at d c) ]

-- `mm`
pub highlights : Child → Bool
highlights a = a.visible && a.enabled && a.hovers

-- `(a+1)%c` and `a--;return 0>a?c-1:a`, where none is -1.
pub forward : Option ℕ → ℕ → ℕ
forward none c = 0
forward (some a) c = (a + 1) % c

pub backward : Option ℕ → ℕ → ℕ
backward none c = c - 1
backward (some zero) c = c - 1
backward (some (suc a)) c = a

abbrev pub can_highlight : List Child → ℕ → Bool
can_highlight cs i = elim (get_elem? cs i) [ none ↦ false | some a ↦ highlights a ]

-- The loop of `Io`, with the number of rounds that are left.
pub search : (Option ℕ → ℕ → ℕ) → List Child → ℕ → ℕ → Option ℕ
search next cs zero i = none
search next cs (suc n) i =
    let rest = search next cs n (next (some i) (length cs)) in
    if can_highlight cs i then some i else rest

-- `0>c?Zn(a,a.Ga):c`
pub start_of : Container → Option ℕ → Option ℕ
start_of c none = c.opened
start_of c (some i) = some i

-- `Io`: the index that is highlighted, if one is; it starts beside `start`.
pub find : (Option ℕ → ℕ → ℕ) → Option ℕ → Container → Option ℕ
find next start c =
    search next c.children (length c.children + 1) (next (start_of c start) (length c.children))

-- `Eo`, `Fo`, `Ho` and `Go`
pub first_child : Container → Option ℕ
first_child c =
    find forward (if length c.children == 0 then none else some (length c.children - 1)) c

pub last_child : Container → Option ℕ
last_child c = find backward (some 0) c

pub next_child : Container → Option ℕ
next_child c = find forward c.highlighted c

pub previous_child : Container → Option ℕ
previous_child c = find backward c.highlighted c
