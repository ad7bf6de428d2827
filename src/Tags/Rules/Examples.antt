-- ===== src/Tags/Rules/Examples.antt =====
-- Two rules that share a condition; the second blocks what the first adds.
use demolition_app.Base.{ℕ, ◌≡◌, Bool, false, not, ◌&&◌, ◌||◌, ltb, ◌==◌, List, [], ◌∷◌}
use demolition_app.Tags.Masks.{Rule}
use demolition_app.Tags.Rules.{member, resolve_event}
use demolition_app.Tags.Rules.Fired.{is_added, is_blocked, member-resolve_event}

abbrev rules : List Rule
rules =
    record { conditions = 0 ∷ []; tags = 1 ∷ 2 ∷ []; exceptions = 3 ∷ []; blocked = [] }
    ∷ record { conditions = 0 ∷ 4 ∷ []; tags = []; exceptions = []; blocked = 2 ∷ [] }
    ∷ []

abbrev even : ℕ → Bool
even n = n == 0 || n == 4

member-resolve_event_example :
    member 2 (resolve_event even (λ n. false) rules)
    ≡ (ltb 2 97 && (is_added even 2 rules && not (is_blocked even 2 rules) && not false))
member-resolve_event_example = member-resolve_event even (λ n. false) rules 2
