-- ===== src/Tracker/Sending/Examples.antt =====
-- A server that always asks for the other one.
use demolition_app.Tracker.Sending.{Answer}

abbrev asks : Answer
asks = record { size = 2; whole = "1d"; first = "1"; second = "d"; rest = "" }
