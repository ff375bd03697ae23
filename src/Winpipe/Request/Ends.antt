-- ===== src/Winpipe/Request/Ends.antt =====
-- `perform_request` over any system that keeps to its documented behaviour: how it can end.
use libagent.Base.{◌≤◌, ◌≢◌, length, ok, err}
use libagent.Http.{Response, max_body_size, out_of_fuel}
use libagent.Winpipe.{PipeError, PipeResult, http_error, out_of_rounds}
use libagent.Winpipe.Open.{Rounds}

-- An error of the source: no loop was given too few rounds.
abbrev pub Genuine : PipeError → Type 0
Genuine e = (e ≢ out_of_rounds) × (e ≢ http_error out_of_fuel)

abbrev pub RequestEnds : PipeResult Response → Type 0
RequestEnds (ok resp) = length resp.body ≤ max_body_size
RequestEnds (err e) = Genuine e
