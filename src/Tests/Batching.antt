-- ===== src/Tests/Batching.antt =====
-- The batching executor of capacity 2 with three decode steps of three sessions.
use jetsonfabric.Base.{◌≡◌, refl, ◌∷◌, [], List, false, pos, String, map, arith, take}
use jetsonfabric.Inference.{StageInput, ExecutionResult, success, decode}
use jetsonfabric.Inference.TokenPayload.{sampled_token_payload}
use jetsonfabric.Pipeline.Batching.{
  Batching, ContinuousBatchingConfig, Outcome, returned, start, execute, enqueues, wake, next_batch,
  run_batch, inputs_of, execute_batch, is_empty,
}
use jetsonfabric.Pipeline.Batching.Order.{IsOrdered, Reach-IsOrdered, executions, served}
use jetsonfabric.Pipeline.Batching.Progress.{drains}
use jetsonfabric.Pipeline.Batching.System.{Steps, Reach, called, wakes, pops, runs, here, later}

abbrev step_of : String → StageInput
step_of session = record {
  session_id = session;
  request_id = "request";
  model_id = "model";
  phase = decode;
  decode_step = pos 1;
  position = record { index = pos 0; count = pos 1 };
  layers = record { first = pos 0; last = pos 2 };
  payload = sampled_token_payload (pos 1);
  max_tokens = pos 8;
}

-- Echoes the payload.
abbrev echo : StageInput → ExecutionResult
echo i = success (record {
  payload = i.payload;
  prompt_tokens = pos 0;
  prompt_token_ids = [];
  completion_tokens = pos 1;
  execution_batch_size = pos 1;
  verification_width = pos 1;
  token_text = [];
  token_text_offsets = [];
  token_eog = [];
  end_of_generation = false;
})

abbrev Gives : List StageInput → Outcome → Type 0
Gives inputs o = o ≡ returned (execute_batch echo inputs)

abbrev pairs : ContinuousBatchingConfig
pairs = record { max_batch_size = 2 }

abbrev three_calls : Batching
three_calls = execute (step_of "c") (execute (step_of "b") (execute (step_of "a") (start pairs)))

abbrev one_batch : Batching
one_batch =
    let popped = next_batch (wake three_calls) in
    run_batch (take 2 three_calls.queue)
      (returned (execute_batch echo (inputs_of (take 2 three_calls.queue)))) popped

three_calls-Reach : Reach Gives pairs three_calls
unfolding start execute enqueues
three_calls-Reach =
    later (later (later here (called (step_of "a") refl refl)) (called (step_of "b") refl refl))
      (called (step_of "c") refl refl)

one_batch-Reach : Reach Gives pairs one_batch
unfolding start execute enqueues wake is_empty next_batch
one_batch-Reach =
    later (later (later three_calls-Reach (wakes refl refl refl)) (pops refl refl))
      (runs (take 2 three_calls.queue) _ refl refl)

batch_served :
    (map (λ p. p.completion) (served one_batch.completed) ≡ 0 ∷ 1 ∷ [])
    × (map (λ p. p.completion) one_batch.queue ≡ 2 ∷ [])
unfolding start execute wake next_batch run_batch is_empty inputs_of execute_batch
batch_served = (refl, refl)

Reach-IsOrdered_example : IsOrdered one_batch
Reach-IsOrdered_example = Reach-IsOrdered pairs (omega arith) one_batch-Reach

drains_example :
    (t : Batching) × Steps Gives one_batch t
    × (served t.completed ≡ executions one_batch)
    × (t.queue ≡ [])
    × (t.stop_requested ≡ one_batch.stop_requested)
drains_example =
    drains Gives (λ inputs. (returned (execute_batch echo inputs), refl)) one_batch
      Reach-IsOrdered_example
