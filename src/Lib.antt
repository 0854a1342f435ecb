-- ===== src/Lib.antt =====
-- Formal model of the core of Free Claude Code, a gateway between Claude Code and model providers.
--
-- A client's request is routed by src/free_claude_code/application/routing.py, from the name of a model to
-- a provider and its model, with a reasoning policy. It runs on a lease of the current generation of
-- provider runtimes, src/free_claude_code/runtime/provider_manager.py, which a change of the settings
-- replaces. Every request of the gateway to a provider is admitted by src/free_claude_code/providers/admission.py.
-- Its controller holds a semaphore, the sliding-window limiter of src/free_claude_code/core/rate_limit.py,
-- and at most one recovery episode: after a transient failure one execution, the leader, probes the
-- provider while the others wait. The messaging side (Telegram, Discord) keeps each conversation as a
-- tree of messages, src/free_claude_code/messaging/trees: the aggregate of runtime.py owns the graph of
-- the messages, the queue of the nodes that wait, and the claim of the one node that runs. A claimed
-- node's prompt ends in requests that pass the admission. What a provider answers becomes an Anthropic
-- stream, which the ledger of src/free_claude_code/core/anthropic/streaming builds event by event, after
-- the parser of src/free_claude_code/core/anthropic/thinking.py has told reasoning from text. The first
-- events are held back by src/free_claude_code/providers/stream_recovery.py, so that a stream that fails
-- early can be tried again unseen; one that fails later goes on with a continuation. What a failure means
-- to the admission and to the client is decided by src/free_claude_code/providers/failure_policy.py. One
-- provider writes tool calls as markup into its text, which
-- src/free_claude_code/providers/nvidia_nim/native_tool_stream.py takes out again.
--
-- Files and the code that they model:
--   Base: Boolean tests over the native numbers, lists, sets and dictionaries as association lists.
--   Limiter: core/rate_limit.py. `acquire_round` is the body of the loop of `_acquire`, `run` the rounds
--     of all callers in the order of the lock. Window has the theorems.
--   Admission: providers/admission.py. State: sessions, the episode, the delay. Gate: `_wait_for_gate`,
--     `_permit_is_current`, `_matching_probe`, `_abandon_…`. Attempt: ProviderAttempt, `_attempt_…`.
--     System: `open_attempt` cut at its awaits into the steps of many executions, and reachability. Play
--     runs a schedule. Slots, Probe, Exclusive, Budget and Exhaustion are the theorems on them. Run:
--     `run_with_retry`, and Run/Alone the theorem on it.
--   Tree: messaging/trees. Node: node.py and identity.py. Queue: queue.py. Graph: graph.py.
--     Runtime: runtime.py and the results of transitions.py, in State, Admit (admission and release),
--     Cancel (cancellation and removal) and Report (outcomes of a claim, replies, restoring). Invariant,
--     Claims, Stops, Removal and Calls carry the invariant, Oldest and Hidden the theorems on single calls.
--   Stream: core/anthropic/streaming. Text and Slices: texts, their slices and suffixes. Event:
--     the events. Blocks: class StreamBlockLedger. Ledger, Turn and Queries: class
--     AnthropicStreamLedger, from the records of blocks to whole turns. Client: the calls of the
--     ledger by core/openai_responses/provider_stream.py. Contract:
--     core/anthropic/stream_contracts.py, the contract that clients rely on. Followed has the proofs
--     that the ledger keeps to it: one module for each primitive, then for turns, tools, calls and
--     endings.
--   Recovery: providers/stream_recovery.py. Holdback: RecoveryHoldbackBuffer. Controller:
--     RecoveryController and `is_retryable_stream_error`. Delivery: a provider's operations in sequence,
--     with the events that the client has received. Invisible and Order have the theorems.
--   Think: core/anthropic/thinking.py. Find: searches. Parser: class ThinkTagParser, whose
--     loop in `feed` is `feed_loop`. Reference splits a whole text a character at a time. Clear, Rounds
--     and Streamed have the proofs: on texts without tags, on one round, on a stream of contents.
--   ModelId: core/gateway_model_ids.py. Laws has texts with separators and suffixes, and Laws/RoundTrip
--     the theorems on encoding and decoding.
--   Continuation: `continuation_suffix` of core/anthropic/streaming/recovery.py, by which a stream that
--     was cut off goes on. Laws has the theorems.
--   Generations: runtime/provider_manager.py, the generations of provider runtimes and their leases.
--     System: callers, refreshes, replacements and the shutdown as interleaved actions. Counted, Open and
--     Drained have the theorems.
--   Failures: core/failures.py and providers/failure_policy.py. Errors: the exceptions. Status: the status
--     of a failure, and whether it is tried again. Classify: the canonical failure. Laws: the theorems.
--   Routing: core/reasoning.py, application/reasoning.py, application/routing.py and the validators of
--     config/settings.py that they rest on. Reasoning: the policies. Router: the resolution of a name.
--     Requests: the routed requests. Budget, Routed, Advertised: the theorems.
--   NativeTools: providers/nvidia_nim/native_tool_stream.py. Framer: the framer of the markup. Markup: the
--     parser of elements, whose fuel is the length of the text. Scan, Blocks, Framed, Printed: what the
--     framer holds back and gives out, and the markup of elements. Whole, Plain, RoundTrip, Enough: the
--     theorems.
--
-- Conventions. Times are whole ticks of a clock that is an argument. A number is the identity of a
-- message, a session or a string, and zero the empty string. An object that several parties share stands
-- in a store under its number. A raised exception is `none`, or an answer of its own where the caller
-- can go on. The controller's critical sections and the tree's methods, which run under a lock, are one
-- step each; an execution may be cancelled wherever it waits for the gate, the limiter or the semaphore.
-- Code that is not in these files is an argument: whether an error is retryable and its Retry-After
-- (Policy), the caller's override of an error, the random draws, the fresh claim identifiers, and `json`
-- and the tokenizer of the stream ledger, whose texts are lists of code points.
--
-- Fuel: `continue_open` takes at most six steps to an attempt when no other execution interferes, and
-- `open_fuel` is 8. `claim_next` pops one item a round and has the length of the queue. The walk over
-- descendants has its fuel from the caller, and answers `none` where that is used up.
-- `feed_loop` has a round more than the buffer has characters, since each round but the last shortens it.
-- The fuel of `read_element` bounds how deep the calls nest: a unit more than the text has characters,
-- since an opening tag is longer than the two calls that nest behind it.
--
-- Not modelled: log lines and trace events, node_view, the JSON of snapshots, the manager that routes
-- calls to the trees, the wire formats of Anthropic and OpenAI, the HTTP API, the rest of the configuration, the
-- command line, and the clients of single providers.
pub mod Base
pub mod Admission
pub mod Limiter
pub mod Tree
pub mod Stream
pub mod Recovery
pub mod Think
pub mod ModelId
pub mod Continuation
pub mod Generations
pub mod Failures
pub mod Routing
pub mod NativeTools
