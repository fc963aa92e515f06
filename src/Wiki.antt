-- ===== src/Wiki.antt =====
-- The human-governed wiki of backend/internal/postgres: its tables, the operations that write them,
-- each one step, and what these keep.
pub mod State
pub mod Writes
pub mod Create
pub mod Save
pub mod Approve
pub mod Review
pub mod Queue
pub mod Changes
pub mod Frame
pub mod Pointers
pub mod Moves
pub mod Refine
pub mod Invariant
pub mod Lifecycle
pub mod Approval
pub mod Conflict
pub mod Performed
pub mod Candidates
pub mod Earliest
