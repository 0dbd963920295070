-- ===== src/Pipeline/Batching.antt =====
-- runtime/pipeline_parallel/continuous_batching_executor.cpp: decode steps that arrive while a batch is
-- gathered are executed as one batch by the worker thread. The promise of a call is its ticket.
pub mod System
pub mod Order
pub mod Results
pub mod Progress
use jetsonfabric.Base.{
  ℕ, zero, suc, min, Bool, true, false, not, Option, none, some, String, List, [], ◌∷◌, ◌++◌, map,
  length, take, drop, replicate, ltb, ◌==◌, if◌then◌else◌,
}
use jetsonfabric.Inference.{
  StageInput, ExecutionResult, ExecutionResult.error_result, ErrorKind.execution_failure,
  Phase.prefill, Phase.decode,
}

pub record ContinuousBatchingConfig : Type 0 where
  pub max_batch_size : ℕ

-- What the constructor makes of its arguments; `negative_wait` is the sign of the wait.
unfoldable pub check_config : Bool → ContinuousBatchingConfig → Bool → Option String
check_config has_delegate config negative_wait =
    if not has_delegate
    then some "continuous batching requires a layer executor"
    else if ltb config.max_batch_size 2
    then some "continuous batching size must be at least two"
    else if negative_wait
    then some "continuous batching wait must not be negative"
    else none

unfoldable pub failure : String → String → ExecutionResult
failure code message =
    error_result (record { kind = execution_failure; code = code; message = message })

pub record PendingExecution : Type 0 where
  pub input : StageInput
  pub completion : ℕ

-- A promise that is kept, with what it was given.
pub record Completed : Type 0 where
  pub execution : PendingExecution
  pub result : ExecutionResult

-- What the delegate does with a batch.
pub data Outcome : Type 0 where
  returned : List ExecutionResult → Outcome
  thrown : String → Outcome

-- Executor::execute_batch, where an engine does not replace it.
unfoldable pub execute_batch :
    (StageInput → ExecutionResult) → List StageInput → List ExecutionResult
execute_batch execute [] = []
execute_batch execute (i ∷ inputs) = execute i ∷ execute_batch execute inputs

-- Where the worker thread stands: at the first wait, at the wait for more, with a batch, at its end.
pub data Worker : Type 0 where
  waiting gathering ended : Worker
  executing : List PendingExecution → Worker

pub record Batching : Type 0 where
  pub config : ContinuousBatchingConfig
  pub queue : List PendingExecution
  pub worker : Worker
  pub stop_requested : Bool
  pub next_ticket : ℕ
  pub completed : List Completed

unfoldable pub start : ContinuousBatchingConfig → Batching
start config = record {
  config = config;
  queue = [];
  worker = waiting;
  stop_requested = false;
  next_ticket = 0;
  completed = [];
}

unfoldable pub is_empty : List PendingExecution → Bool
is_empty [] = true
is_empty (p ∷ queue) = false

-- A call of `execute`: a prefill goes to the delegate at once and touches no queue.
unfoldable pub enqueues : StageInput → Bool
enqueues i = elim i.phase [ prefill ↦ false | decode ↦ true ]

unfoldable pub execute : StageInput → Batching → Batching
execute i s = record s {
  queue = s.queue ++ (record { input = i; completion = s.next_ticket }) ∷ [];
  next_ticket = suc s.next_ticket;
}

-- The first wait of `next_batch` ends with a queue that is not empty.
unfoldable pub wake : Batching → Batching
wake s = record s { worker = if is_empty s.queue then waiting else gathering }

-- The end of `next_batch`, behind its second wait.
unfoldable pub next_batch : Batching → Batching
next_batch s =
    let count = min s.config.max_batch_size (length s.queue) in
    record s { queue = drop count s.queue; worker = executing (take count s.queue) }

unfoldable pub batch_results : ℕ → Outcome → List ExecutionResult
unfolding failure
batch_results size (thrown what) = replicate size (failure "continuous_batch_failed" what)
batch_results size (returned results) =
    if length results == size
    then results
    else replicate size (
        failure "continuous_batch_result_mismatch"
          "layer executor returned the wrong number of batch results")

unfoldable pub complete : List PendingExecution → List ExecutionResult → List Completed
complete [] results = []
complete (p ∷ pending) [] = []
complete (p ∷ pending) (r ∷ results) =
    (record { execution = p; result = r }) ∷ complete pending results

unfoldable pub inputs_of : List PendingExecution → List StageInput
inputs_of = map (λ p. p.input)

-- One round of `run` behind `next_batch`.
unfoldable pub run_batch : List PendingExecution → Outcome → Batching → Batching
unfolding batch_results complete
run_batch pending o s = record s {
  worker = waiting;
  completed = s.completed ++ complete pending (batch_results (length pending) o);
}

unfoldable pub request_stop : Batching → Batching
request_stop s = record s { stop_requested = true }

unfoldable pub stopped : ExecutionResult
unfolding failure
stopped = failure "continuous_batch_stopped" "continuous batching executor stopped before execution"

-- The end of `run`: what is left in the queue fails.
unfoldable pub fail_pending : Batching → Batching
unfolding stopped
fail_pending s = record s {
  queue = [];
  worker = ended;
  completed = s.completed ++ map (λ p. record { execution = p; result = stopped }) s.queue;
}
