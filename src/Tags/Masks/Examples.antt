-- ===== src/Tags/Masks/Examples.antt =====
-- Two numbers and their letters.
use demolition_app.Base.{◌≡◌, [], ◌∷◌, map, arith}
use demolition_app.Tags.Masks.{read}
use demolition_app.Tags.Masks.Letters.{letter, places, read-letters}

read-letters_example : read (map letter (33 ∷ 0 ∷ 63 ∷ [])) ≡ places 0 (33 ∷ 0 ∷ 63 ∷ [])
read-letters_example =
    read-letters (33 ∷ 0 ∷ 63 ∷ []) (omega arith, (omega arith, (omega arith, tt))) (omega arith)
