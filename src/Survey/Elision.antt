-- ===== src/Survey/Elision.antt =====
-- Which part of the page `eu` covers until the survey is over.
pub mod Limits
mod Examples
use demolition_app.Base.Dict.{has_text}
use demolition_app.Base.{
  ℕ, suc, ◌+◌, ltb, leb, ◌==◌, Bool, true, false, not, ◌&&◌, ◌||◌, if◌then◌else◌, String, Option,
  none, some, List, [], ◌∷◌, ◌++◌,
}

-- A node as it is found: whether it is an element and whether a text; whether it is an image; its tag in
-- capitals; whether it can have children (`Jh`); whether it lies within an element of `hideClass`; whether it
-- is found by that class; and how long its text is, whether that is not blank.
pub record Found : Type 0 where
  pub is_element : Bool
  pub is_text : Bool
  pub is_image : Bool
  pub tag : String
  pub can_hold : Bool
  pub in_hidden : Bool
  pub by_hide_class : Bool
  pub text_length : ℕ
  pub has_words : Bool

-- `Xt`: `cc`, `ld` and `wn`.
pub record Node : Type 0 where
  pub found : Found
  pub length : ℕ
  pub left_out : Bool
  pub forced : Bool

-- `Wt`
abbrev pub block_tags : List String
block_tags =
    "A" ∷ "ADDRESS" ∷ "ARTICLE" ∷ "BLOCKQUOTE" ∷ "BR" ∷ "CENTER" ∷ "DEL" ∷ "DIV" ∷ "H1" ∷ "H2"
    ∷ "H3" ∷ "H4" ∷ "H5" ∷ "H6" ∷ "HR" ∷ "IMG" ∷ "INS" ∷ "OL" ∷ "P" ∷ "PRE" ∷ "TABLE" ∷ "UL" ∷ []

-- `Zt` and `$t` make a node, and the first loop of `Ju` measures it; the argument is whether there is a
-- `hideClass`.
pub measure : Bool → Found → Node
measure hides f =
    let out = hides && f.in_hidden in
    record {
      found = f;
      length = if out || f.can_hold then 0 else f.text_length;
      left_out = f.by_hide_class || out;
      forced = f.by_hide_class;
    }

pub measure_all : Bool → List Found → List Node
unfolding measure
measure_all hides [] = []
measure_all hides (f ∷ fs) = measure hides f ∷ measure_all hides fs

-- What a node adds to the characters and to the images.
pub characters : Node → ℕ
characters n = if n.left_out then 0 else n.length

pub images : Node → ℕ
images n = if n.left_out then 0 else if n.found.is_image then 1 else 0

pub total : (Node → ℕ) → List Node → ℕ
total f [] = 0
total f (n ∷ ns) = f n + total f ns

-- The options `elideImages`, `elideCharacters` and `maxElidePercentage`, none where they are not numbers.
pub record Options : Type 0 where
  pub max_images : Option ℕ
  pub max_characters : Option ℕ
  pub percentage : Option ℕ

pub or_default : ℕ → Option ℕ → ℕ
or_default d none = d
or_default d (some n) = n

-- The smaller one, if there is a maximum.
pub at_most : Option ℕ → ℕ → ℕ
at_most none n = n
at_most (some m) n = if ltb m n then m else n

-- The parameter is the share that a percentage of a number makes, rounded up: the script computes it
-- with floats.
module _ (share : ℕ → ℕ → ℕ) where
  -- How many characters stay readable; at most 80 percent do.
  pub character_limit : Options → ℕ → ℕ
  unfolding at_most or_default
  character_limit o n =
      let p = or_default 33 o.percentage in
      at_most o.max_characters (share (if ltb 80 p then 80 else p) n)

  pub image_limit : Options → ℕ → ℕ
  unfolding at_most or_default
  image_limit o n = at_most o.max_images (share (or_default 33 o.percentage) n)

-- There are some, and more than the limit.
pub exceeds : ℕ → ℕ → ℕ → Bool
exceeds all limit n = not (all == 0) && ltb limit n

-- The totals and the limits.
pub record Allowance : Type 0 where
  pub all_characters : ℕ
  pub max_characters : ℕ
  pub all_images : ℕ
  pub max_images : ℕ

-- Whether a block of the page starts with the node.
pub starts_block : Node → Bool
starts_block n = not n.left_out && has_text block_tags n.found.tag

-- The loop of `Iu`: the characters and the images so far, the last node that starts a block, and the
-- place of the next node.
pub search : Allowance → ℕ → ℕ → ℕ → ℕ → List Node → ℕ
unfolding exceeds characters images starts_block
search m g h k i [] = 0
search m g h k i (n ∷ ns) =
    let g' = g + characters n in
    let h' = h + images n in
    let k' = if starts_block n then i else k in
    let rest = search m g' h' k' (suc i) ns in
    if not n.left_out
      && (exceeds m.all_characters m.max_characters g' || exceeds m.all_images m.max_images h')
    then k'
    else rest

module _ (share : ℕ → ℕ → ℕ) where
  pub limits : Options → List Node → Allowance
  unfolding character_limit image_limit total characters images
  limits o ns = record {
    all_characters = total characters ns;
    max_characters = character_limit share o (total characters ns);
    all_images = total images ns;
    max_images = image_limit share o (total images ns);
  }

  -- `Iu`: the place of the first node that is covered.
  pub cut : Options → List Node → ℕ
  unfolding limits search
  cut o ns = search (limits o ns) 0 0 0 0 ns

-- What `bu` makes of a node: nothing, or it is hidden, its words become dashes, its image is covered
-- once it is loaded, or its classes and styles are taken.
pub data Mark : Type 0 where
  kept hidden dashed covered plain : Mark

pub mark : ℕ → ℕ → Node → Mark
mark c i n =
    if n.left_out
    then if not n.found.is_text && n.found.is_element && n.forced then hidden else kept
    else if not (leb c i)
    then kept
    else if n.found.is_text && n.found.has_words
    then dashed
    else if n.found.is_element
    then if n.found.is_image then covered else plain
    else kept

pub marks : ℕ → ℕ → List Node → List Mark
unfolding mark
marks c i [] = []
marks c i (n ∷ ns) = mark c i n ∷ marks c (suc i) ns

-- `Ju`: the place where the page is cut, and the marks; none when nothing is found.
pub cover : (ℕ → ℕ → ℕ) → Options → Bool → List Found → Option (ℕ × List Mark)
unfolding cut measure_all marks
cover share o hides [] = none
cover share o hides (f ∷ fs) =
    let ns = measure_all hides (f ∷ fs) in let c = cut share o ns in some (c, marks c 0 ns)
