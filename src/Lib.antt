-- ===== src/Lib.antt =====
-- Labmate is an agent service: an orchestrator keeps a tree of goals for a request, runs each ready
-- goal in a loop of model turns and tool calls, and walks a graph of nodes (assess, plan, execute,
-- verify, check, reflect, approval, revise) until the root goal has an answer. This library models
-- the orchestrator's own logic, which stands in services/orchestrator/, and of the services around
-- it the memory of a session (services/memory/), the gateway's session store (services/ws_gateway/),
-- and the skills' runner, registry and worker (services/skill_runner/, services/skill_worker/).
--
-- The parts, and the files that model them:
--   Goals: types.py. The goal tree is an association list from ids to goals, in the dict's order;
--     `none` is a KeyError. `create_goal`, `update_status`, `get_ready_goals` keep their names. The
--     time is an argument.
--   Graph: graph.py and finalize_revision.py. Graph/Execute is the loop of `execute_node` over the
--     results of the workers, with the attempts of failed goals; Graph/Traversal is the walk below
--     the root in `check`; Graph/Check is the node `check`, whose result is an Outcome; Graph/Routing
--     has the keys of the graph's state that the routers read, the four routers, and the nodes
--     `verify` and `revise`; Graph/Reflection has `reflect` and `approval`, Graph/Planning
--     `assess_ambiguity` and `plan`. `commit_check` writes the keys that `check` returns over the
--     state's, as the graph does between two nodes. Graph/Wiring is `build_graph`: `next` takes one
--     step from a node along its edge, a run is a `Trace` of steps, and the inputs of a step are what
--     the workers, the model and the user answer in it.
--   Errors: error_classifier.py, which decides whether a failed goal is tried again.
--   Budget: iteration_budget.py, the turns that a loop may take. Every operation of the class holds
--     the lock for its whole body and is one step here.
--   LoopDetection: loop_detection.py. A signature is any text.
--   Messages: message_repair.py, which repairs a conversation before the model reads it, and its
--     validator; Messages/Steer is steer_inject.py.
--   Checkpoint: loop_checkpoint.py, the snapshot of a loop, its dict and the store in memory.
--   Guards: Guards/Grounding is tool_grounding.py; Guards/Completion is completion_guard.py;
--     Guards/Breaker is progress_breaker.py; Guards/Outcome is test_outcome.py and
--     `_run_tests_passed` of coding_orchestrator.py; Guards/Finish is verification_stop.py and what
--     `_run_react_loop` of coding_orchestrator.py does at a call of `finish`, at a test run and at an
--     edit, as a run over a list of such events, among them the loop's other ends as inputs.
--   Loop: `_run_react_loop` of coding_orchestrator.py. Loop/Calls is the loop over the tool calls of a
--     turn, `run_calls`; Loop/Turn the turn from the check for cancellation to the breaker, `turn`, and
--     the loop, `run`; Loop/Resume the checkpoint of a turn and the start from it. It uses Budget,
--     LoopDetection, Messages, Checkpoint and Guards as the source does. The model's replies, the
--     outcomes of the tools, the steers and the flags of each turn are inputs.
--   Dispatch: AsyncOrchestrator of coding_orchestrator.py. The workers of the ready goals, with the
--     token budget that they share, make a run of events, `run_pool`, so that every interleaving is a
--     list; Dispatch/SkillFirst is `_run_skill_first` and the routing in `react_execute`.
--   Outbox: outbox_worker.py. `process_once` is the loop over one collection, `project`, done twice;
--     the number of writes that succeed before an exception is an input.
--   Memory: services/memory/context_manager.py. Memory/Lines is the trimming of texts; Memory/Compact
--     is `full_compact` with the outcome of every write to Redis as an input; Memory/Context is
--     `build_context` and `conversation_context`; Memory/Retrieve is `hybrid_retrieve`.
--   Sessions: services/ws_gateway/sessions.py, InMemorySessionStore and two of its routes.
--   Events: the steer channel of events.py, `write_steer` and `read_and_clear_steer`; a call of
--     Redis is served, refused, or carried out with its reply lost.
--   SkillRouter: skill_router.py. `select` and `route` on the picks of the samples, `plan_tool_call`
--     with the SkillRunner, and the polling of `execute`.
--   SkillRunner: services/skill_runner/skill_runner.py. `discover`, `load_skill`, `tool_schema` and
--     `catalog_prompt` keep their names; the files are a parameter of each call.
--   SkillRegistry: services/skill_runner/skill_registry.py. One skill process, the task that owns it,
--     its callers and the background restarts are a machine whose events are the pieces of code between
--     two awaits that suspend, so that every interleaving is a list. The dict of the processes and the
--     split of a qualified name are left out.
--   SkillWorker: services/skill_worker/worker.py. The stream of tasks in Redis with its pending
--     entries, read by any number of workers, and `_handle` with its writes, as events.
--   Common: lists over the native numbers, texts as lists of code points, dicts.
--
-- Parameters: `lower` stands for str.lower, `shown` for the decimal that an f-string writes, the
-- type of scores and its comparisons for floats. What json.loads gives of a test result is the type
-- Parsed, and what the critique skill answers the type Reply. Python's int, float, list and bool,
-- which read a stored checkpoint, are the record Builtins, with what Python documents of them as the
-- hypothesis IsPython.
--
-- Fuel: the walk of Graph/Traversal and the loop of Loop/Turn run on fuel. The loop's is one more
-- than twice the maximum of the budget, the ceiling of `record_turn`. In the walk an entry is expanded
-- at most once for each id of the tree, so the entries on the stack and the child ids of the goals
-- that are not yet seen bound its steps; `walk_fuel` is that number. The runs of Graph/Wiring have no
-- fuel: they are bounded by a theorem.
--
-- Not modelled: the model's and the tools' answers, the emitter of events, prompts, the pause
-- before a rate-limited retry, the checkpointer of the graph, the MongoDB stores, the
-- consolidation of memories, the sockets of the gateway, the clients, the skills and the
-- frontend. They are input and output, or are left for later.
pub mod SkillWorker
pub mod SkillRouter
pub mod SkillRunner
pub mod SkillRegistry
pub mod Common
pub mod Budget
pub mod LoopDetection
pub mod Messages
pub mod Goals
pub mod Errors
pub mod Graph
pub mod Guards
pub mod Checkpoint
pub mod Loop
pub mod Memory
pub mod Sessions
pub mod Dispatch
pub mod Events
pub mod Outbox
