-- ===== src/Lib.antt =====
-- ChoraMem: the Python worker that turns windows of evidence into tagged memory changes, the Python SDK
-- with its client, rendering and agent adapter, and three parts of the evaluation package.
--
-- The program. The Go core hands the worker a window of evidence over gRPC
-- (api/memory/inference/v1/inference.proto). `InferenceService.ProcessConsolidationWindow`
-- (worker/python/src/memory_core_worker/service.py) asks a text model up to four times (the main
-- pass, the formation of a Disposition, feedback that is missing, plain Recollections), repairs what
-- the model wrote and returns blocks of tagged text. Two modules prepare material and turn plain
-- lines of the model into blocks: source_materials.py for Recollections, disposition_materials.py for
-- Dispositions. An application reads memory through the SDK, whose
-- sdk/python/src/memory_core/rendering.py renders a memory context for a prompt, with the refs that
-- were delivered. The evaluation package checks the whole against a local index of its own
-- (eval/python/src/memory_core_eval/local_memory_index.py), a fixed lifecycle of a companion
-- (eval/python/src/memory_core_eval/seed_lifecycle.py) and a harness that compares modes of memory
-- (eval/python/src/memory_core_eval/reference.py).
--
-- The files.
--   Prelude, Text, Result: lists, native numbers, Python's str as a list of code points (strip,
--     split, splitlines, join, the size in UTF-8), and what a function raises or returns.
--   Wire: the messages of the inference protocol, as the fields that the worker reads.
--   Checks: the limits, sizes and tests on refs of source_materials.py.
--   Recollection: RecollectionMaterial and bind_recollection; Recollection/Sources and
--     Recollection/Materials: recollection_materials.
--   Disposition: the formation material, its prompt and bind_disposition; Disposition/Window: the
--     regular expressions on the window; Disposition/Formation: disposition_formation_material.
--   Tagged: the repairs of service.py on tagged text. Application: _split_copied_inline_application;
--     Target: _restore_initial_new_target; Basis: _deduplicate_basis; NewDisposition:
--     _remove_new_disposition_changes; Window and Feedback: the feedback functions.
--   Prompts: the fixed rules, verbatim.
--   Service: build_*_input, _bind_plain_recollections and the handler. The text model is a parameter:
--     what it answers is a function of the prompts sent before and of the prompt, and may be no str
--     or an exception. The state is the list of the prompts sent.
--   Rendering: render_memory_context; the caller's token_count is a parameter, which may return
--     something other than a nonnegative integer.
--   Agents: OpenAIAgentsAdapter (sdk/python/src/memory_core/adapters/openai_agents.py): its
--     configuration, run_turn and report_outcome; Agents/Calls: the calls of the memory client and of
--     the runner, both parameters, with the list of the calls made as the state.
--   Trace: code that calls others, with the list of the calls made as its state; Trace/Made: which
--     calls it adds.
--   Client: AsyncMemoryClient (sdk/python/src/memory_core/client.py). Times are ticks; the token
--     provider and the RPCs are parameters.
--   Index: local_memory_index.py. Chunks: chunk_text; Projection: semantic_index_text; Ranking:
--     rank_unique_candidates; Store: the collection of Chroma, as an interface with laws; Servicer:
--     Upsert, Search, Delete and Reset. The tokenizer, the encoder, the hashes and numpy are
--     parameters. A distance is the natural number of its bits.
--   Lifecycle: seed_lifecycle.py. States: the readings of a settled state; Summary:
--     summarize_lifecycle; Feedback: _run_feedback_case and its steps. The memory, the model, the
--     settling service and Unicode's tables for digits and upper case are parameters. Suite: the
--     formation of the Disposition and the suite of the cases, without its files.
--   Harness: reference.py. Rag: render_episode_rag; Run: ReferenceHarness.run in its steps; Memory and
--     Isolation: its calls; Scopes: _scope. The memory, the model, the settling call and Unicode's tables are parameters.
--   Tests: runs at concrete inputs, and a collection that is a list.
--
-- Bounds and fuel. Numbers are natural numbers, as Python's integers do not overflow and none here
-- is negative. The loop of _normalize_feedback_output runs on fuel, the number of its lines, and each
-- round takes eight lines or more; the loop of chunk_text runs on the number of tokens, and each round
-- starts at a later token.
--
-- Not modelled: the construction of the SDK's client from an endpoint (urllib, channels), the OpenAI
-- client, the gRPC server and the settings of the worker, and the encoding of messages (calls of other
-- packages); of the evaluation package all but the three parts above: the files of the lifecycle's
-- suite, the data of benchmarks, their runners, scores and command lines; the Go core and the
-- TypeScript SDK (other languages).
pub mod Prelude
pub mod Trace
pub mod Text
pub mod Result
pub mod Wire
pub mod Checks
pub mod Recollection
pub mod Disposition
pub mod Tagged
pub mod Prompts
pub mod Rendering
pub mod Agents
pub mod Client
pub mod Lifecycle
pub mod Harness
pub mod Index
pub mod Service
mod Tests
