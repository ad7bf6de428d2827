-- ===== src/Survey/Report/Examples.antt =====
-- A survey with a choice and a free answer, and a longer one.
use demolition_app.Base.{◌≡◌, refl, false, some, List, [], ◌∷◌, inl, arith}
use demolition_app.Survey.Report.{
  response, verdict_type, unlisted, given, Entry, Asked, is_open, report,
}
use demolition_app.Survey.Report.Privacy.{IsHidden, report-late}

abbrev choice : Asked
choice = record { type = "multi"; answers = "Red" ∷ "Blue" ∷ []; has_other = false }

abbrev free : Asked
free = record { type = "open-text"; answers = []; has_other = false }

abbrev entries : List Entry
entries =
    record { key = verdict_type; values = "a" ∷ [] }
    ∷ record { key = response given 0; values = "Blue" ∷ [] }
    ∷ record { key = response given 1; values = "My name is" ∷ [] }
    ∷ record { key = unlisted "p"; values = "1" ∷ [] }
    ∷ []

abbrev many : List Asked
many =
    choice ∷ choice ∷ choice ∷ choice ∷ choice ∷ choice ∷ choice ∷ choice ∷ choice ∷ choice ∷ free
    ∷ []

report-late_example :
    (report false many (record { key = response given 10; values = "My name is" ∷ [] } ∷ [])
      ≡ some (record { key = response given 10; values = "My name is" ∷ [] } ∷ []))
    × (¬ IsHidden false many (response given 10))
unfolding is_open
report-late_example =
    report-late false many given 10 ("My name is" ∷ []) free choice (omega arith) (omega arith) refl
      (inl refl) refl refl refl
