-- ===== src/Workflow.antt =====
-- server/engine/workflow_executor.py: `State` has the steps, the session and the interface to the
-- database, the models and the network; `Fields` the validation of form fields; `Moves` the targets,
-- cards and rollback; `Advance` the way to the next step; `Collect`, `Tool` and `Finish` the
-- handlers; `Process` the dispatch and the auto-advance. The proofs stand in the modules after them.
pub mod State
pub mod Fields
pub mod Moves
pub mod Advance
pub mod Collect
pub mod Tool
pub mod Finish
pub mod Process
pub mod Keeps
pub mod Confirm
pub mod Snapshots
pub mod Rollback
pub mod Targets
pub mod Webhook
pub mod Tests
