-- ===== src/Prompt/Logger/Examples.antt =====
-- The first logger that is asked for, and one below it.
use demolition_app.Base.{[], ◌∷◌, arith}
use demolition_app.Prompt.Logger.{Name, find}
use demolition_app.Prompt.Logger.Levels.{IsRooted}

nothing-IsRooted : IsRooted []
unfolding IsRooted find
nothing-IsRooted l e = absurd (ground (arith, e))

abbrev net : Name
net = "net" ∷ "goog" ∷ []
