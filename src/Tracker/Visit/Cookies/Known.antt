-- ===== src/Tracker/Visit/Cookies/Known.antt =====
-- What is written into the cookies is read again.
use demolition_app.Tracker.Visit.{Visit}
