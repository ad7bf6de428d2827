-- ===== src/Prompt/Viewport/Examples.antt =====
-- A window that becomes wider.
use demolition_app.Base.{some, []}
use demolition_app.Prompt.Viewport.{idle, Size, Monitor}

abbrev small : Size
small = record { width = 320; height = 480 }

abbrev wide : Size
wide = record { width = 480; height = 480 }

abbrev monitor : Monitor
monitor = record { size = some small; delay = idle; wait = 100; sent = [] }
