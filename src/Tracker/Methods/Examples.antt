-- ===== src/Tracker/Methods/Examples.antt =====
-- The rate of the samples, set as a text; the mode, read after it was set.
use demolition_app.Base.{false, some}
use demolition_app.Tracker.Methods.{Fields}
use demolition_app.Tracker.FieldNames.{undefined, Setter, Getter, service_mode, as_is}

abbrev empty : Fields
empty = record { values = λ i. undefined; made = λ m. false }

abbrev mode_setter : Setter
mode_setter = record {
  method = "_setRemoteServerMode";
  field = service_mode;
  call = 63;
  conversion = as_is;
  fixed = some 1;
}

abbrev mode_getter : Getter
mode_getter = record {
  method = "_getServiceMode";
  field = service_mode;
  call = 59;
  conversion = as_is;
}
