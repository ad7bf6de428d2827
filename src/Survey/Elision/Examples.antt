-- ===== src/Survey/Elision/Examples.antt =====
-- A page with two paragraphs and an image.
use demolition_app.Base.{ℕ, ◌+◌, ◌*◌, ◌/◌, Bool, true, false, String, none, some, List, [], ◌∷◌}
use demolition_app.Survey.Elision.{Found, Node, Options, measure_all}

abbrev element : String → Bool → ℕ → Found
element tag is_image n = record {
  is_element = true;
  is_text = false;
  is_image = is_image;
  tag = tag;
  can_hold = false;
  in_hidden = false;
  by_hide_class = false;
  text_length = n;
  has_words = true;
}

abbrev page : List Node
page = measure_all true (
    element "P" false 40
    ∷ element "SPAN" false 30
    ∷ element "IMG" true 0
    ∷ element "P" false 60
    ∷ [])

abbrev options : Options
options = record { max_images = none; max_characters = some 50; percentage = some 50 }

abbrev share : ℕ → ℕ → ℕ
share p n = (p * n + 99) / 100
