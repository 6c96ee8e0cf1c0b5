-- ===== src/Guards.antt =====
-- The guards of the ReAct loop: tool_grounding.py, completion_guard.py, test_outcome.py,
-- progress_breaker.py, verification_stop.py and the handler of `finish` of
-- services/orchestrator/coding_orchestrator.py.
pub mod Grounding
pub mod Completion
pub mod Finish
pub mod Outcome
pub mod Breaker
mod Examples
