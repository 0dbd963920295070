-- ===== src/Pipeline/Generation/InStep.antt =====
-- generation_runner.cpp: the decode step of the requests, and the calls of the cleanup.
use jetsonfabric.Base.{
  ◌≡◌, sym, ◌∙◌, ◌≤◌, ℕ, String, Option, none, some, List, [], ◌∷◌, ◌++◌, map, append-nil,
  append_assoc, length,
}
use jetsonfabric.Pipeline.Generation.{StageOperation, close_session}
use jetsonfabric.Pipeline.Generation.Pass.{StageInvoker}
use jetsonfabric.Pipeline.Generation.Sessions.{
  close_request, session_error, close_from, close_sessions,
}
use jetsonfabric.Pipeline.Generation.Turns.{Turns}
use jetsonfabric.Protocol.Generation.{GenerationStage, GenerationRequest}

-- The strategy keeps to the number of tokens that it is asked for.
abbrev pub Limited : Option (List ℕ → ℕ → List ℕ) → Type 0
Limited none = Unit {0}
Limited (some propose) = (history : List ℕ) (k : ℕ) → length (propose history k) ≤ k

-- An invoker that writes down the stage and the operation of each call.
abbrev pub recording :
    {W : Type 0} → StageInvoker W → StageInvoker (W × List (GenerationStage × StageOperation))
recording invoke s q operation (w, calls) =
    let (w', run) = invoke s q operation w in ((w', calls ++ ((s, operation) ∷ [])), run)

close_from-calls :
    {W : Type 0} (invoke : StageInvoker W) (g : GenerationRequest) (stages : List GenerationStage)
    (error : String) (w : W) (calls : List (GenerationStage × StageOperation))
    → (close_from (recording invoke) g stages error (w, calls)).0.1
      ≡ calls ++ map (λ s. (s, close_session)) stages
unfolding close_from
close_from-calls invoke g [] error w calls = sym (append-nil calls)
close_from-calls invoke g (s ∷ stages) error w calls =
    let called = invoke s (close_request g s) close_session w in
    close_from-calls invoke g stages (session_error s (close_request g s) called.1 error) called.0
      (calls ++ ((s, close_session) ∷ []))
    ∙ append_assoc calls ((s, close_session) ∷ []) (map (λ t. (t, close_session)) stages)

-- The cleanup of a generation asks each of its stages once, in order, to close the session, and
-- nothing else, whatever the stages answer.
pub close_sessions_calls :
    {W : Type 0} (invoke : StageInvoker W) (g : GenerationRequest) (w : W)
    (calls : List (GenerationStage × StageOperation))
    → (close_sessions (recording invoke) g (w, calls)).0.1
      ≡ calls ++ map (λ s. (s, close_session)) g.stages
unfolding close_sessions
close_sessions_calls invoke g w calls = close_from-calls invoke g g.stages "" w calls
