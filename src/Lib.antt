-- ===== src/Lib.antt =====
-- The core of hetero-paged-infer, an inference server with continuous batching over a paged KV
-- cache, and what holds of it.
--
-- The program. A request is submitted to the engine, which hands it to the scheduler. In each step
-- the scheduler (src/scheduler.rs) puts together a batch: one token for each sequence that is
-- decoding, prompts that have not run yet, and requests that are pending, as far as the limits of
-- the configuration and the blocks of the KV cache (src/kv_cache.rs) allow. The execution pipeline
-- (src/execution_pipeline.rs) turns that into a batch for a backend (src/gpu_executor.rs), checks
-- its shape, runs it with retries, and checks what the backend returns. The scheduler then records
-- the tokens, completes or fails sequences and gives their blocks back. A tokenizer
-- (src/tokenizer.rs) turns the prompt into tokens and the tokens into pieces of text. The HTTP layer
-- (src/server.rs) checks and prepares the requests of its clients and hands them to a loop that owns
-- the engine, which sends each client the pieces and the result of its request.
--
-- Where it is modelled, with paths from the repository's root:
--   Error       src/error.rs: `ConfigError`, `EngineError`; a message of `format!` is a value of
--               `Message`, one constructor for each template, with the values put into it
--   Types       src/types/: requests and their states, sequences, batches, outputs
--   Config      src/config.rs: the configuration, `validate`, `blocks_for_tokens`; Limits is a proof
--   KvCache     src/kv_cache.rs: `KVCacheManager` and its page tables; KvCache/Pool is `BlockPool`.
--               PoolLaws, Shape, Invariant, Allocation, Release, Stats and Traces are proofs
--   Scheduler   src/scheduler.rs: the state, endings, admission tests and growth; Schedule is
--               `schedule`, Update is `update_sequences`, Requests the methods by request id.
--               Invariant, Leaving, Endings, Starting, Growth, Conservation, Waiting, Admission,
--               Bounds, Limits, Order, Failure, Progress, Accounts and Traces are proofs
--   Pipeline    Executor is the trait `GPUExecutorTrait` as a record of operations over the
--               backend's own state; Batches is `build_execution_batch`, Checks the two checks,
--               Execution is `BatchExecutionPipeline::execute`, Mock is `MockGPUExecutor`.
--               Contract, Retries, BatchSteps, BatchTokens and BatchLaws are proofs
--   Engine      src/engine.rs: `InferenceEngine`, `submit_request`; Text is the search for stop
--               sequences, Collection is `collect_completed_requests`, Steps is `step_events`,
--               Api the other methods. Samples is test data. Tokens, Accounts, Submission and
--               Counts are proofs
--   Tokenizer   src/tokenizer.rs: the traits as a record of operations; Simple and HuggingFace are
--               the two tokenizers, Decoders their decoders and `build_tokenizer`. Streaming and
--               RoundTrip are proofs
--   Server      src/server.rs: Errors is `ApiError`, Params and Prepare the checks of a request's
--               body, Generation the results, usage and logprobs, Streams the events of a streamed
--               response, Waiters and Loop the loop that owns the engine, Answers and Handlers the
--               handlers. Outcomes, Acceptance, Admission, Protocol, Offsets, Delivery, Rounds,
--               Stall and Replies are proofs, HandlerExamples has examples
--   TinyLlm     src/tiny_llm_executor.rs: its construction; Backend is its methods, Capacity and
--               Contract are proofs
--   Prelude, SeqMap   tests, machine words, lists, sorting, results, floats, and a map from ids
-- In each component Examples applies the theorems at concrete inputs.
--
-- How the state corresponds. A method with `&mut self` takes the state and returns the new one,
-- beside its result. A `BTreeMap` or `HashMap` is `SeqMap`, a list of keys and values in which
-- `IsMap` says that a key stands once. A `VecDeque` or `Vec` is a list. u32 and u64 are native
-- numbers with the wrap-around of a release build written out, or the saturation where the source
-- saturates; `usize` is not bounded. An f32 is its bit pattern, and the operations on it are a
-- parameter (`FloatOps`): no theorem assumes anything of them, and `Prelude.Float.fixed_point` is
-- an instance for the examples. An index out of range, which panics in the source, is the error
-- `index_panic`. The backend is a parameter too, as are the crate `tokenizers`, the C library
-- tiny-llm and a JSON value, and to the engine its tokenizer; no theorem assumes anything of what
-- they return.
--
-- Loops. The loops of `schedule` and `update_sequences` run over lists that are fixed before they
-- start, and the scan of the pending queue over its length at the start, which is its number of
-- rounds. The retry loop counts `max_retry_attempts` down.
--
-- The rounds of the server's loop are a list of what each of them receives: the submissions, and
-- whether the client is there at each chunk that is sent.
-- A handler is given what the loop answers to it (`Answered`), for each number of a candidate; how
-- many candidates it starts is its own loop over `prepared.n`.
--
-- Not modelled: HTTP, JSON and routing, the metrics routes of the server, its command line, the run
-- loop of the engine with its stall limit, the arithmetic of the CPU backend, the
-- reading of configuration files, logging, and the load generator.

pub mod Prelude
pub mod SeqMap
pub mod Error
pub mod Types
pub mod KvCache
pub mod Config
pub mod Tokenizer
pub mod TinyLlm
pub mod Scheduler
pub mod Pipeline
pub mod Engine
pub mod Server
