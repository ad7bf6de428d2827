-- ===== src/Prompt/Viewport/Resizes.antt =====
-- What the monitor tells after resizes.
use demolition_app.Base.{
  ℕ, zero, suc, ◌≡◌, refl, Bool, true, false, not, ◌==◌, some, List, [], ◌∷◌, arith,
}
use demolition_app.Prompt.Viewport.{
  Size, same_size, width, height, resize, SizeEvent, Monitor, on_resize, tell, on_delay,
}

-- Resizes without a pause.
pub resizes : ℕ → Monitor → Monitor
resizes zero m = m
resizes (suc n) m = resizes n (on_resize m)

resizes-size : (n : ℕ) (m : Monitor) → ((resizes n m).size ≡ m.size) × ((resizes n m).sent ≡ m.sent)
unfolding resizes on_resize
resizes-size zero m = (refl, refl)
resizes-size (suc n) m = resizes-size n (on_resize m)

abbrev pub mentions : SizeEvent → List SizeEvent → Bool
mentions e [] = false
mentions width (width ∷ es) = true
mentions height (height ∷ es) = true
mentions resize (resize ∷ es) = true
mentions e (d ∷ es) = mentions e es

-- After any number of resizes and one run of the delay a monitor that knew the size a and had told
-- nothing tells of a new width exactly when the width differs from that of a, so for the height,
-- and of a resize exactly when one of them does.
on_delay-resizes :
    (n : ℕ) (a b : Size) (m : Monitor)
    → m.size ≡ some a
    → m.sent ≡ []
    → let told = (on_delay false b (resizes n m)).sent in
      (mentions width told ≡ not (a.width == b.width))
      × (mentions height told ≡ not (a.height == b.height))
      × (mentions resize told ≡ not (same_size a b))
unfolding on_delay tell same_size
on_delay-resizes n a b m known silent =
    let (e, f) = resizes-size n m in
    rw (e, f, known, silent) (ground arith, ground arith, ground arith)
