-- ===== src/Prompt/EventTypes.antt =====
-- The types of events (`Td`), by the names that the script gives them, and those of the mouse where
-- the browser has pointer events (`Ud`).
pub mod Pointers
use demolition_app.Base.{String, Bool, List, [], ◌∷◌, ◌++◌, map, if◌then◌else◌}
use Prim.Native.String.{◌++◌ as str_append}

-- `E`, `fc`, `D`, `Md` and `Nd`
pub record Browser : Type 0 where
  pub webkit : Bool
  pub opera : Bool
  pub ie : Bool
  pub pointer : Bool
  pub ms_pointer : Bool

-- `lower` is `toLowerCase`.
module _ (lower : String → String) where
  -- `Rd`
  pub vendor : Browser → String → String
  vendor w a =
      if w.webkit
      then str_append "webkit" a
      else if w.opera
      then str_append "o" (lower a)
      else lower a

  -- The first part of `Td`.
  abbrev pub first_types : Browser → List (String × String)
  first_types w =
      ("cv", "click")
      ∷ ("ry", "rightclick")
      ∷ ("vv", "dblclick")
      ∷ ("Ce", "mousedown")
      ∷ ("De", "mouseup")
      ∷ ("zf", "mouseover")
      ∷ ("yf", "mouseout")
      ∷ ("yp", "mousemove")
      ∷ ("wp", "mouseenter")
      ∷ ("xp", "mouseleave")
      ∷ ("Be", "mousecancel")
      ∷ ("Ey", "selectionchange")
      ∷ ("Fy", "selectstart")
      ∷ ("Fz", "wheel")
      ∷ ("Bw", "keypress")
      ∷ ("Aw", "keydown")
      ∷ ("Cw", "keyup")
      ∷ ("Tu", "blur")
      ∷ ("gw", "focus")
      ∷ ("wv", "deactivate")
      ∷ ("hw", "focusin")
      ∷ ("iw", "focusout")
      ∷ ("$u", "change")
      ∷ ("oy", "reset")
      ∷ ("Cy", "select")
      ∷ ("Ty", "submit")
      ∷ ("xw", "input")
      ∷ ("fy", "propertychange")
      ∷ ("Tv", "dragstart")
      ∷ ("Ov", "drag")
      ∷ ("Qv", "dragenter")
      ∷ ("Sv", "dragover")
      ∷ ("Rv", "dragleave")
      ∷ ("Uv", "drop")
      ∷ ("Pv", "dragend")
      ∷ ("lz", "touchstart")
      ∷ ("kz", "touchmove")
      ∷ ("jz", "touchend")
      ∷ ("iz", "touchcancel")
      ∷ ("Su", "beforeunload")
      ∷ ("nv", "consolemessage")
      ∷ ("pv", "contextmenu")
      ∷ ("zv", "devicechange")
      ∷ ("Av", "devicemotion")
      ∷ ("Bv", "deviceorientation")
      ∷ ("Iv", "DOMContentLoaded")
      ∷ ("Zv", "error")
      ∷ ("Kl", "help")
      ∷ ("Lw", "load")
      ∷ ("Vw", "losecapture")
      ∷ ("Kx", "orientationchange")
      ∷ ("ky", "readystatechange")
      ∷ ("py", "resize")
      ∷ ("yy", "scroll")
      ∷ ("qz", "unload")
      ∷ ("Xu", "canplay")
      ∷ ("Yu", "canplaythrough")
      ∷ ("Wv", "durationchange")
      ∷ ("Xv", "emptied")
      ∷ ("Yv", "ended")
      ∷ ("Ow", "loadeddata")
      ∷ ("Pw", "loadedmetadata")
      ∷ ("Px", "pause")
      ∷ ("Rx", "play")
      ∷ ("Sx", "playing")
      ∷ ("iy", "ratechange")
      ∷ ("Ay", "seeked")
      ∷ ("By", "seeking")
      ∷ ("Py", "stalled")
      ∷ ("Vy", "suspend")
      ∷ ("fz", "timeupdate")
      ∷ ("Cz", "volumechange")
      ∷ ("Dz", "waiting")
      ∷ ("Ny", "sourceopen")
      ∷ ("My", "sourceended")
      ∷ ("Ly", "sourceclosed")
      ∷ ("xu", "abort")
      ∷ ("sz", "update")
      ∷ ("wz", "updatestart")
      ∷ ("uz", "updateend")
      ∷ ("rw", "hashchange")
      ∷ ("Mx", "pagehide")
      ∷ ("Nx", "pageshow")
      ∷ ("ay", "popstate")
      ∷ ("sv", "copy")
      ∷ ("Ox", "paste")
      ∷ ("uv", "cut")
      ∷ ("Mu", "beforecopy")
      ∷ ("Nu", "beforecut")
      ∷ ("Qu", "beforepaste")
      ∷ []

  -- The rest of `Td`.
  abbrev pub later_types : Browser → List (String × String)
  later_types w =
      ("Hx", "online")
      ∷ ("Gx", "offline")
      ∷ ("fx", "message")
      ∷ ("mv", "connect")
      ∷ ("yw", "install")
      ∷ ("yu", "activate")
      ∷ ("bw", "fetch")
      ∷ ("jw", "foreignfetch")
      ∷ ("gx", "messageerror")
      ∷ ("Qy", "statechange")
      ∷ ("vz", "updatefound")
      ∷ ("qv", "controllerchange")
      ∷ ("Fu", vendor w "AnimationStart")
      ∷ ("Du", vendor w "AnimationEnd")
      ∷ ("Eu", vendor w "AnimationIteration")
      ∷ ("mz", vendor w "TransitionEnd")
      ∷ ("Ux", "pointerdown")
      ∷ ("$x", "pointerup")
      ∷ ("Tx", "pointercancel")
      ∷ ("Xx", "pointermove")
      ∷ ("Zx", "pointerover")
      ∷ ("Yx", "pointerout")
      ∷ ("Vx", "pointerenter")
      ∷ ("Wx", "pointerleave")
      ∷ ("mw", "gotpointercapture")
      ∷ ("Ww", "lostpointercapture")
      ∷ ("jx", "MSGestureChange")
      ∷ ("kx", "MSGestureEnd")
      ∷ ("lx", "MSGestureHold")
      ∷ ("mx", "MSGestureStart")
      ∷ ("nx", "MSGestureTap")
      ∷ ("ox", "MSGotPointerCapture")
      ∷ ("px", "MSInertiaStart")
      ∷ ("qx", "MSLostPointerCapture")
      ∷ ("rx", "MSPointerCancel")
      ∷ ("sx", "MSPointerDown")
      ∷ ("tx", "MSPointerEnter")
      ∷ ("ux", "MSPointerHover")
      ∷ ("vx", "MSPointerLeave")
      ∷ ("wx", "MSPointerMove")
      ∷ ("xx", "MSPointerOut")
      ∷ ("yx", "MSPointerOver")
      ∷ ("zx", "MSPointerUp")
      ∷ ("$y", "text")
      ∷ ("cz", if w.ie then "textinput" else "textInput")
      ∷ ("jv", "compositionstart")
      ∷ ("kv", "compositionupdate")
      ∷ ("iv", "compositionend")
      ∷ ("Ou", "beforeinput")
      ∷ ("$v", "exit")
      ∷ ("Mw", "loadabort")
      ∷ ("Nw", "loadcommit")
      ∷ ("Qw", "loadredirect")
      ∷ ("Rw", "loadstart")
      ∷ ("Sw", "loadstop")
      ∷ ("qy", "responsive")
      ∷ ("Iy", "sizechanged")
      ∷ ("rz", "unresponsive")
      ∷ ("Bz", "visibilitychange")
      ∷ ("Sy", "storage")
      ∷ ("Nv", "DOMSubtreeModified")
      ∷ ("Jv", "DOMNodeInserted")
      ∷ ("Lv", "DOMNodeRemoved")
      ∷ ("Mv", "DOMNodeRemovedFromDocument")
      ∷ ("Kv", "DOMNodeInsertedIntoDocument")
      ∷ ("Gv", "DOMAttrModified")
      ∷ ("Hv", "DOMCharacterDataModified")
      ∷ ("Ru", "beforeprint")
      ∷ ("Au", "afterprint")
      ∷ ("Pu", "beforeinstallprompt")
      ∷ ("Gu", "appinstalled")
      ∷ []

  pub event_types : Browser → List (String × String)
  event_types w = first_types w ++ later_types w

-- `Ud`
pub mouse_types : Browser → List (String × String)
mouse_types w =
    (
      "Ce",
      if w.pointer then "pointerdown" else if w.ms_pointer then "MSPointerDown" else "mousedown",
    )
    ∷ ("De", if w.pointer then "pointerup" else if w.ms_pointer then "MSPointerUp" else "mouseup")
    ∷ (
      "Be",
      if w.pointer
          then "pointercancel"
          else if w.ms_pointer
          then "MSPointerCancel"
          else "mousecancel",
    )
    ∷ (
      "yp",
      if w.pointer then "pointermove" else if w.ms_pointer then "MSPointerMove" else "mousemove",
    )
    ∷ (
      "zf",
      if w.pointer then "pointerover" else if w.ms_pointer then "MSPointerOver" else "mouseover",
    )
    ∷ (
      "yf",
      if w.pointer then "pointerout" else if w.ms_pointer then "MSPointerOut" else "mouseout",
    )
    ∷ (
      "wp",
      if w.pointer then "pointerenter" else if w.ms_pointer then "MSPointerEnter" else "mouseenter",
    )
    ∷ (
      "xp",
      if w.pointer then "pointerleave" else if w.ms_pointer then "MSPointerLeave" else "mouseleave",
    )
    ∷ []
