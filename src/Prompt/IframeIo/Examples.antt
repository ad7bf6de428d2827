-- ===== src/Prompt/IframeIo/Examples.antt =====
-- Requests of which one succeeds, one is aborted and one fails.
use demolition_app.Base.{◌≡◌, refl, true, false, List, [], ◌∷◌}
use demolition_app.Prompt.IframeIo.{Browser, new_io, good, handle_error}
use demolition_app.Prompt.IframeIo.Requests.{
  Input, sends, aborts, loads, checks, send_next, handle_error-send_next,
}

abbrev firefox : Browser
firefox = record { old = false; empty_first = false; silent = true }

abbrev inputs : List Input
inputs = sends false ∷ loads false good ∷ sends false ∷ aborts ∷ sends false ∷ checks true ∷ []

handle_error-send_next_example :
    ((handle_error firefox (send_next firefox) new_io).active ≡ true)
    × (handle_error firefox (λ x. x) (handle_error firefox (send_next firefox) new_io)
        ≡ handle_error firefox (send_next firefox) new_io)
unfolding new_io
handle_error-send_next_example = handle_error-send_next firefox (λ x. x) new_io refl
