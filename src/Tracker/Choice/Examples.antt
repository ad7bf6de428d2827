-- ===== src/Tracker/Choice/Examples.antt =====
-- Three cookies, two of them of the domain.
use demolition_app.Base.{◌≡◌, ◌≢◌, false, List, [], ◌∷◌}
use demolition_app.Tracker.Choice.{Cookie, best, size_of}
use demolition_app.Tracker.Choice.Best.{of_size, best-of_size}

abbrev cookies : List Cookie
cookies =
    record { domain_size = 2; path_size = 1; visitor = "1.2" }
    ∷ record { domain_size = 3; path_size = 1; visitor = "3.4" }
    ∷ record { domain_size = 2; path_size = 2; visitor = "5.6" }
    ∷ []

cookies-fit : of_size false 2 cookies ≢ []
unfolding of_size size_of
cookies-fit e = cc (e)

best-of_size_example : best false 2 cookies ≡ of_size false 2 cookies
best-of_size_example = best-of_size false 2 cookies cookies-fit
