-- ===== src/Survey/Sequence/Numbering.antt =====
-- The questions of a payload, and their numbers: `pt`, `qt` and `rt`.
use demolition_app.Base.{
  ℕ, suc, ◌+◌, ◌≤◌, leb, ◌==◌, ◌≡◌, refl, Bool, true, false, not, ◌&&◌, ◌||◌, if◌then◌else◌, String,
  str_eq, Option, none, some, ◌>>=◌, List, [], ◌∷◌, ◌++◌, length, get_elem?, All, arith,
}
use demolition_app.Survey.Sequence.{Item}

-- A single question of the payload: its type, and whether it has threshold answers.
pub record Entry : Type 0 where
  pub type : String
  pub has_threshold : Bool

pub data Payload : Type 0 where
  compound : Payload
  pivot : Entry → Entry → Payload
  longform : List Entry → List ℕ → Payload
  single : Entry → Payload

-- `pt`: the questions, and the order that is asked for.
pub expand : Payload → List Entry × List ℕ
expand compound =
    let e : Entry = record { type = "multi"; has_threshold = false } in (e ∷ e ∷ [], [])
expand (pivot e f) = (e ∷ f ∷ [], [])
expand (longform es ordering) = (es, ordering)
expand (single e) = (e ∷ [], [])

-- The types that have a class.
pub is_known : String → Bool
is_known type =
    str_eq type "dropdown-with-image"
    || str_eq type "image-choice"
    || str_eq type "multi"
    || str_eq type "multi-select"
    || str_eq type "multi-select-with-image"
    || str_eq type "multi-with-image"
    || str_eq type "num-range"
    || str_eq type "open-numeric"
    || str_eq type "open-text"
    || str_eq type "open-text-image"
    || str_eq type "permissions"
    || str_eq type "rating"
    || str_eq type "showcase"
    || str_eq type "showcase-image"
    || str_eq type "take-picture"
    || str_eq type "video"
    || str_eq type "zoom-image-choice"

-- A new question; `position` and `gb` are 1 until they are set.
pub new_item : Entry → Option Item
unfolding is_known
new_item e =
    if is_known e.type
    then some (record {
      type = e.type;
      has_threshold = e.has_threshold;
      position = 1;
      total = 1;
      fresh = false;
    })
    else none

-- The loop of `qt`; without an order the questions come as they are. An entry that is missing, or
-- whose type is unknown, is an error.
pub build : List Entry → Option (List Item)
unfolding new_item
build [] = some []
build (e ∷ es) = new_item e >>= λ item. build es >>= λ items. some (item ∷ items)

pub arrange : List Entry → List ℕ → List Entry → Option (List Entry)
arrange [] order entries = some []
arrange (e ∷ es) [] entries = none
arrange (e ∷ es) (n ∷ order) entries =
    get_elem? entries n >>= λ entry. arrange es order entries >>= λ rest. some (entry ∷ rest)

pub in_order : List ℕ → List Entry → Option (List Entry)
unfolding arrange
in_order [] entries = some entries
in_order (n ∷ order) entries = arrange entries (n ∷ order) entries

-- `qt`
pub make_items : List ℕ → List Entry → Option (List Item)
unfolding in_order build
make_items order entries = in_order order entries >>= build

-- What `jt` makes of the supplemental payloads: the order that was asked for before, also by the
-- main payload, applies to them, and theirs is added to it.
pub load_groups : List ℕ → List Payload → Option (List ℕ × List (List Item))
unfolding expand make_items
load_groups order [] = some (order, [])
load_groups order (p ∷ ps) =
    let e = expand p in
    let all = order ++ e.1 in
    make_items all e.0 >>= λ items. load_groups all ps >>= λ r. some (r.0, items ∷ r.1)

-- `jt`: the questions, not yet numbered, and the supplemental groups.
pub load : Payload → List Payload → Option (List Item × List (List Item))
unfolding expand load_groups make_items
load p ps =
    let e = expand p in
    load_groups e.1 ps >>= λ r. make_items r.0 e.0 >>= λ items. some (items, r.1)

-- `rt`: questions about permissions are not counted.
unfoldable pub is_counted : Item → Bool
is_counted item = not (str_eq item.type "permissions")

unfoldable pub number_item : Bool → ℕ → Item → Item
number_item true c item = record item { position = c; fresh = c == 1 }
number_item false c item = item

-- The argument is how many were counted before.
unfoldable pub number : ℕ → List Item → List Item
unfolding is_counted number_item
number c [] = []
number c (item ∷ items) =
    number_item (is_counted item) (suc c) item ∷ number (if is_counted item then suc c else c) items

unfoldable pub count_items : List Item → ℕ
unfolding is_counted
count_items [] = 0
count_items (item ∷ items) =
    let rest = count_items items in if is_counted item then suc rest else rest

-- `zd` becomes one more, but at most 2, when the question after the free ones has a threshold.
unfoldable pub raise_free : ℕ → Option Item → ℕ
raise_free free none = free
raise_free free (some item) =
    if item.has_threshold then if leb (free + 1) 2 then free + 1 else 2 else free

unfoldable pub lengths : List (List Item) → ℕ
lengths [] = 0
lengths (group ∷ groups) = length group + lengths groups

unfoldable pub set_totals : Bool → ℕ → ℕ → ℕ → List Item → List Item
set_totals long free counted others [] = []
set_totals long free counted others (item ∷ items) =
    record item { total = (if long && leb item.position free then free else counted) + others }
    ∷ set_totals long free counted others items

-- `rt`: `zd`, and the numbered questions.
unfoldable pub number_items : Bool → ℕ → List Item → List (List Item) → ℕ × List Item
unfolding number count_items raise_free lengths set_totals
number_items long free items groups =
    let numbered = number 0 items in
    let raised = raise_free free (get_elem? numbered free) in
    (raised, set_totals long raised (count_items items) (lengths groups) numbered)

-- The number lies between one and the bound.
abbrev pub Between : ℕ → Item → Type 0
Between n item = (1 ≤ item.position) × (item.position ≤ n)

-- There is room after the question for the others within its total.
abbrev pub IsNumbered : ℕ → Item → Type 0
IsNumbered others item = (1 ≤ item.position) × (item.position + others ≤ item.total)

number_item-Between :
    (b : Bool) (c n : ℕ) (item : Item)
    → 1 ≤ c
    → (b ≡ true → c ≤ n)
    → Between n item
    → Between n (number_item b c item)
unfolding number_item
number_item-Between true c n item p q k = (p, q refl)
number_item-Between false c n item p q k = k

number-Between :
    (items : List Item) (c n : ℕ)
    → c + count_items items ≤ n
    → All (Between n) items
    → All (Between n) (number c items)
unfolding number count_items
number-Between [] c n h k = tt
number-Between (item ∷ items) c n h (k, ks) = (
  number_item-Between (is_counted item) (suc c) n item (omega arith) (λ e. ground (arith, e, h)) k,
  number-Between items _ n (ground (arith, h)) ks,
)

set_totals-IsNumbered :
    (long : Bool) (free counted others : ℕ) (items : List Item)
    → All (Between counted) items
    → All (IsNumbered others) (set_totals long free counted others items)
unfolding set_totals
set_totals-IsNumbered long free counted others [] k = tt
set_totals-IsNumbered long free counted others (item ∷ items) (k, ks) =
    ((k.0, ground (arith, k.1)), set_totals-IsNumbered long free counted others items ks)

-- Where some question is counted and none has a number yet, each question of the main payload gets a
-- number from one on that, with the number of all supplemental questions, is at most its total.
number_items-IsNumbered :
    (long : Bool) (free : ℕ) (items : List Item) (groups : List (List Item))
    → 1 ≤ count_items items
    → All (λ (i : Item). i.position ≡ 1) items
    → All (IsNumbered (lengths groups)) (number_items long free items groups).1
unfolding number_items
number_items-IsNumbered long free items groups h k =
    set_totals-IsNumbered long _ (count_items items) (lengths groups) (number 0 items)
      (number-Between items 0 (count_items items) (omega arith) (fresh items k))
  where
    fresh :
        (js : List Item)
        → All (λ (i : Item). i.position ≡ 1) js
        → All (Between (count_items items)) js
    fresh [] _ = tt
    fresh (j ∷ js) (e, es) = ((omega (arith, e), omega (arith, e, h)), fresh js es)

-- Where the main payload asks for an order that does not start with its first question, a single
-- supplemental question is an error.
pub load-reordered :
    (entries : List Entry) (n : ℕ) (order : List ℕ) (e : Entry) (more : List Payload)
    → load (longform entries (suc n ∷ order)) (single e ∷ more) ≡ none
unfolding load load_groups expand make_items in_order arrange
load-reordered entries n order e more = refl
