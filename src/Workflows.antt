-- ===== src/Workflows.antt =====
-- `WorkflowCoordinator` of src/workflows.ts: tasks, their runs and the process waits, over the
-- object store. The first children have the operations, the others what is proved of them.
pub mod Tasks
pub mod Sync
pub mod Dispatch
pub mod Callers
pub mod Lease
pub mod Waits
pub mod Resuming
pub mod Rearming
pub mod Reconcile
pub mod Steps
pub mod Fence
pub mod Requests
pub mod Leases
pub mod Certainty
pub mod Resumption
