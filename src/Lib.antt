-- ===== src/Lib.antt =====
-- A verification library for the runtime of JetsonFabric (runtime/, C++), the process of a node that
-- holds model deployments and runs the stages of a layer pipeline.
--
-- The parts, and how they interact. An HTTP request reaches the runtime service, which loads,
-- activates, drains and unloads deployments in the deployment manager, or asks it to run a stage.
-- A generation request goes through the generation service to the generation runner, which sends
-- passes through the stages, the first of them in this process, drafts tokens and verifies them.
-- The manager selects the resident deployment that a stage request names and hands the request to
-- that deployment's stage worker; the worker checks the payload and calls an inference executor, which
-- may gather decode steps into batches. Payloads carry text, token ids or activations between stages,
-- activations encoded by a codec, in a message that is a binary frame around JSON metadata.
--
-- The modules:
--   Base            names of the libraries and lemmas that all modules share
--   Deployment      runtime/deployment/deployment.hpp: states, identities, the transition table
--   Deployment/Manager  runtime/deployment/model_manager.cpp. The state of ModelManager::Impl is the
--     record Manager: the map of deployments, the preferred key, and the objects behind the shared
--     pointers, by address. Operations has activate, drain and unload; Load has the load in the two
--     sections it locks the mutex for, with the engine builder's outcome between them; Routing has
--     what run_stage, close_session and rollback_session do before they call the stage worker.
--     System is the relation of one locked section after the other, with any number of loads under
--     way. Proofs: Cases, Map, Lookup, LoadCases, Pending, Isolation, Lifecycle and Loading carry
--     Invariant, Soundness, Steps, Epochs, Effects and Admission.
--   Pipeline        runtime/pipeline_parallel/stage_assignment.cpp and stage_result.hpp
--   Pipeline/Worker runtime/pipeline_parallel/stage_worker.cpp. The executor and the activation codec
--     are records of operations, the executor's state is passed on explicitly, and the readings of
--     the clock are arguments. Operations has run, close_session and rollback_session; proofs in
--     Fits, Runs, Answers and Sessions.
--   Pipeline/Generation  runtime/pipeline_parallel/generation_runner.cpp. Checks has what is done with
--     a request and a response, Pass one pass through the stages, Sessions the cleanup and the
--     rollback, Run the body of the decode loop, Start the prefill, the loop and the whole run. Proofs
--     in Kept, Steps, Turns, Ends, Returns, InStep and Tokens.
--   Pipeline/Batching  runtime/pipeline_parallel/continuous_batching_executor.cpp: the queue of decode
--     steps and the worker thread that executes them in batches. System is the relation of the threads'
--     steps; a promise is its ticket, and the time of the second wait is left open. Proofs in Order,
--     Results and Progress.
--   Protocol        runtime/protocol/stage.hpp (Message) and runtime/protocol/utf8.cpp (Utf8); Json has
--     the operations of the JSON library that the messages use, as a record, and what a round
--     trip needs of it. runtime/protocol/stage.cpp is Fields (how a member is read), Frame (the header,
--     the CRC, the frame), Stage (the checks), Stage/Request and Stage/Response (both directions of
--     each message); stage_control is Control and the end of Frame. Proofs in Fields/Reads,
--     Frame/Header, Frame/Decodes, Stage/Identity, Stage/Optional, Stage/Writable, Stage/Prefix and in
--     the children of Stage/Request and Stage/Response.
--   Protocol/Generation  runtime/protocol/generation.hpp, and in Decode the decoder of generation.cpp;
--     proofs in Stages and Accepted
--   Activation      runtime/activation: Half has the conversions of floats and halves, by their bits,
--     Codec the two codecs and the factory; proofs in Half/Nearest, Half/Again and Codec/RoundTrip
--   Inference       runtime/inference/stage.cpp (phases, payloads, checks) and
--     runtime/inference/token_payload.cpp (TokenPayload)
--   Engine/Service  runtime/engine/generation_service.cpp and protocol/execution_mode.cpp: which
--     generations a runtime takes, and where their requests go; proofs in its Admission
--   Transport/MediaType  runtime/transport/media_type.cpp: the parser of Content-Type values and their
--     comparison. Its Grammar describes the values apart from the parser; proofs in the children.
--   Speculative     runtime/speculative/prompt_lookup_draft.cpp and draft_strategy_factory.cpp; proofs in
--     Search and Lookup
--   Tests           the definitions and theorems at concrete inputs
--
-- Conventions. A string is the native string, its bytes by `codes`; a byte vector is a list of
-- numbers. An int is an integer over the native numbers, and the 64-bit and 32-bit wrap-around of
-- unsigned arithmetic is written out. A thrown exception is `none`, an error message or a
-- constructor of its own. A mutex makes what it guards one step. The type of executors is a
-- parameter `E`, and so is what an engine builder returns or throws.
--
-- Fuel: the UTF-8 scan runs on the number of bytes; each turn reads one at least. The decode
-- loop runs on the number of tokens asked for; each turn emits one at least or ends. The loops of
-- the prompt lookup are structural recursion on their counters. The loop over the parameters of a
-- media type runs on one more than the number of bytes left; each parameter has a byte at least.
-- The mantissa of a subnormal half is shifted at most ten times, since it has ten bits.
--
-- Parameters: the engine builder's outcome, the executor, the activation codec, the stage invoker, the
-- token sink, the draft strategy of a runner, the stage transport, the delegate of the batching
-- executor and the JSON library. An executor or a codec may
-- throw; an invoker and a sink return always, so a generation that one of them ends by an exception
-- is not modelled. The token counters of a generation are natural numbers without a bound, and
-- the program's int holds every count up to the number of tokens asked for.
--
-- Not modelled: sockets, HTTP but for media types, the text of JSON, the events of a generation, the
-- HTTP handlers of the runtime service, the device mesh, the synthetic executor, the llama.cpp and
-- native engines, the model compiler, the benchmarks, the command line, and the Go control plane.
pub mod Activation
pub mod Base
pub mod Deployment
pub mod Engine
pub mod Inference
pub mod Pipeline
pub mod Protocol
pub mod Speculative
pub mod Transport
mod Tests
