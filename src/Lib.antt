-- ===== src/Lib.antt =====
-- nifre: an inference engine with continuous batching, a paged KV cache and prefix caching.
--
-- The program. A client's request waits in the scheduler until one of the slots of the batch is
-- free. Each step of the engine gives free slots to waiting requests, picks those that decode and
-- as many prefill chunks as the token budget allows, runs the model on both, hands the new tokens
-- out, and retires the requests that are done. The cache keeps the keys and values of each slot in
-- blocks of a shared pool, counted by reference, so that prompts can share their prefixes. A worker
-- thread steps the engine under a lock, while clients submit requests and wait for them. The engine
-- reports to the metrics; a controller reads them, has a policy propose other settings, applies
-- them to the running engine, and keeps them or takes them back.
--
-- Files and code, with paths under src/:
--   Allocator         inference/block_allocator.py: the pool. Accounts is the ledger of who holds
--                     which block, Allocation and Release the calls against it.
--   BlockTable        inference/block_table.py: the blocks of one sequence; Ownership, Capacity.
--   OrderedDict       the dict that keeps an order, and its laws.
--   PrefixCache       inference/prefix_cache.py; Ownership and Lookup.
--   PagedCache        inference/paged_kv_cache.py; Ownership, and History for sequences of calls.
--   DataModel         inference/data_model.py.
--   Scheduler         inference/scheduler.py; Slots, Assignment, Sorting, Reconfigure, Retirement,
--                     Calls, Cancellation, Budget.
--   Batching          inference/batching.py, and padding and mask of inference/attention.py.
--   Engine            inference/engine.py, with Config, Reconfigure and Steps; Runner is
--                     inference/model_runner.py, Slots what a step keeps, Refusal what a refused
--                     change of the settings keeps.
--   Policy            autotune/policy.py; Limits.
--   DenseCache        inference/kv_cache.py; Rows.
--   Completions       inference/openai_api.py, the stream of events.
--   Optimization      observability/optimization.py, the counters and events.
--   HfCache           inference/hf_kv_cache.py: the block prefix cache; Methods is the cache of slots
--                     and the forward pass of inference/backends/hf_auto.py, Prefix, Insert,
--                     Eviction, Lookup, Slots, Forward and Load what they do.
--   Worker            inference/engine_worker.py; Interleaving for all orders of its sections, and
--                     Waiting for what a client waits for.
--   Metrics           observability/metrics_store.py: the store; Percentile, Report for
--                     snapshot, Tally and History what the store holds after any calls, Rates
--                     and Summary that snapshot answers; Collector observability/collector.py, with its
--                     Hooks; Expected says what they are to record, Memory that they do.
--   Autotune          autotune: Workload and Classifier with its Window; Evaluation, Controller and
--                     Tick for controller.py, with Balance and Rollback; Acceptance is about the
--                     policy and the engine.
--   Prelude           the shared names, lists, the methods that may raise, integers, floats.
--   Tests             the theorems at concrete inputs, and runs of the code.
--
-- Representation. A method is a function from the object to its outcome and the object afterwards,
-- also when it raises. The objects that several owners share are part of the state of each of
-- their methods: the pool for tables and caches, the store of requests for the scheduler and the
-- engine. Requests are named by numbers for their ids. A dict of requests is the list of its keys,
-- a set the list of its members. Sizes, token ids and positions are natural numbers, so that the
-- tests for negative ones are left out. The reference counts are integers, as their underflow is
-- tested. Tensors are maps from positions to rows of any type. The hash of a prefix key, the model
-- with its forward pass, and the cache behind the engine are parameters. A float is of any type
-- with the operations of Prelude.Floats; the clock, the metrics and the state of a thread are
-- arguments of the calls that read them.
--
-- Fuel. `ensure_capacity` runs its loop for as many rounds as blocks are needed, and each round
-- adds one. Both `make_room` have one round more than there are entries, and each round drops one.
-- `run_until_done` may run for ever and takes its fuel as an argument.
--
-- Not modelled: the arithmetic of tensors and the models, the clock itself, the places where the
-- engine calls a hook of the metrics, the probe of the device, threads and condition variables other
-- than by the order of the sections that hold the lock, the server and the command line tools.
pub mod Prelude
pub mod Allocator
pub mod BlockTable
pub mod OrderedDict
pub mod PrefixCache
pub mod PagedCache
pub mod DataModel
pub mod Scheduler
pub mod Batching
pub mod Engine
pub mod Policy
pub mod DenseCache
pub mod Completions
pub mod Optimization
pub mod HfCache
pub mod Autotune
pub mod Worker
pub mod Metrics
pub mod Tests
