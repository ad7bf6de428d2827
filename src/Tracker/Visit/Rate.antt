-- ===== src/Tracker/Visit/Rate.antt =====
-- How many events and hits a visit sends.
use demolition_app.Base.{ℕ, ◌+◌, ◌*◌, ◌<◌, ◌≤◌, ◌≡◌}
use demolition_app.Tracker.Visit.{Visit, HitType, refilled_ms}

-- A time after the visit began, and until `last`.
abbrev IsWithin : ℕ → Visit → HitType × ℕ → Type 0
IsWithin last v h = (v.current < h.1) × (h.1 ≤ last)

-- What is left to send: it only shrinks, and each event takes a second of it.
Left : ℕ → ℕ → Visit → Type 0
Left last n v = 1000 * n + refilled_ms v ≤ 1000 * v.tokens + last

-- The time of the last event that was added, and the visit, after a hit.
record Keeps (last : ℕ) (v w : Visit) : Type 0 where
  current : w.current ≡ v.current
  begins : refilled_ms w ≤ last
