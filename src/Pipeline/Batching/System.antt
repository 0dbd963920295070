-- ===== src/Pipeline/Batching/System.antt =====
-- The threads around the queue as a step relation: callers, the worker thread, and the destructor that
-- asks it to stop. A step is what one thread does while it holds the mutex of the queue; a batch is
-- executed outside it. A call behind the start of the destructor is undefined in C++, so a
-- caller comes before it. The second wait may end at any time, by its deadline.
use jetsonfabric.Base.{◌≡◌, true, false, List}
use jetsonfabric.Inference.{StageInput}
use jetsonfabric.Pipeline.Batching.{
  Batching, ContinuousBatchingConfig, PendingExecution, Outcome, Worker.waiting, Worker.gathering,
  Worker.executing, start, enqueues, execute, wake, is_empty, next_batch, run_batch, inputs_of,
  request_stop, fail_pending,
}

-- `Gives inputs o` says that the delegate's `execute_batch` may answer `inputs` by `o`.
module _ (Gives : List StageInput → Outcome → Type 0) where
  pub data Step (s : Batching) : Batching → Type 0 where
    called : (i : StageInput) → s.stop_requested ≡ false → enqueues i ≡ true → Step s (execute i s)
    stops : Step s (request_stop s)
    wakes :
        s.worker ≡ waiting → s.stop_requested ≡ false → is_empty s.queue ≡ false → Step s (wake s)
    pops : s.worker ≡ gathering → s.stop_requested ≡ false → Step s (next_batch s)
    runs :
        (pending : List PendingExecution) (o : Outcome)
        → s.worker ≡ executing pending
        → Gives (inputs_of pending) o
        → Step s (run_batch pending o s)
    fails_waiting : s.worker ≡ waiting → s.stop_requested ≡ true → Step s (fail_pending s)
    fails_gathering : s.worker ≡ gathering → s.stop_requested ≡ true → Step s (fail_pending s)

  pub data Steps (s : Batching) : Batching → Type 0 where
    here : Steps s s
    later : {t u : Batching} → Steps s t → Step t u → Steps s u

  abbrev pub Reach : ContinuousBatchingConfig → Batching → Type 0
  Reach config s = Steps (start config) s
