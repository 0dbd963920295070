-- ===== src/Pipeline/Batching/Results.antt =====
-- Every call gets the result of its own input, or the failure of an executor that is stopped.
use jetsonfabric.Base.{◌≡◌, refl, List, [], ◌∷◌, ◌⊎◌}
use jetsonfabric.Inference.{StageInput, ExecutionResult}
use jetsonfabric.Pipeline.Batching.{Batching, Completed, Outcome, returned, stopped, execute_batch}

abbrev pub All {ℓ} : {A : Type ℓ} → (A → Type 0) → List A → Type 0
All P [] = Unit {0}
All P (x ∷ xs) = P x × All P xs

-- One result for each input, in the order of the inputs.
abbrev pub Aligned :
    (StageInput → ExecutionResult → Type 0) → List StageInput → List ExecutionResult → Type 0
Aligned Answers [] [] = Unit {0}
Aligned Answers [] (r ∷ results) = ⊥
Aligned Answers (i ∷ inputs) [] = ⊥
Aligned Answers (i ∷ inputs) (r ∷ results) = Answers i r × Aligned Answers inputs results

-- The executor interface's own batch call is such a delegate.
pub execute_batch-Aligned :
    (f : StageInput → ExecutionResult) (inputs : List StageInput)
    → Aligned (λ i r. r ≡ f i) inputs (execute_batch f inputs)
unfolding execute_batch
execute_batch-Aligned f [] = tt
execute_batch-Aligned f (i ∷ inputs) = (refl, execute_batch-Aligned f inputs)

module _ (Answers : StageInput → ExecutionResult → Type 0) where
  abbrev pub Own : Completed → Type 0
  Own c = Answers c.execution.input c.result ⊎ (c.result ≡ stopped)

  -- The delegate answers a batch, in the order of its inputs, without an exception.
  abbrev pub Serves : (List StageInput → Outcome → Type 0) → Type 0
  Serves Gives =
      (inputs : List StageInput) (o : Outcome)
      → Gives inputs o
      → (results : List ExecutionResult) × (o ≡ returned results) × Aligned Answers inputs results
