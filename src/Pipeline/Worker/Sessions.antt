-- ===== src/Pipeline/Worker/Sessions.antt =====
-- What the session operations of the stage worker do to the executor's state.
use jetsonfabric.Base.{◌≡◌}
use jetsonfabric.Pipeline.Assignment.{validate_stage_assignment}
use jetsonfabric.Pipeline.Worker.{StageWorker}
use jetsonfabric.Pipeline.Worker.Fits.{Fits}
use jetsonfabric.Protocol.Message.{StageRequest}

-- The worker's assignment is good, and the request is for this worker.
abbrev pub Serves : StageWorker → StageRequest → Type 0
Serves w q = (validate_stage_assignment w.assignment ≡ "") × Fits w q
