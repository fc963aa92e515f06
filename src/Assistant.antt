-- ===== src/Assistant.antt =====
-- The assistant runtime: backend/internal/app/assistant_runtime.go.
pub mod Markers
pub mod Filter
pub mod State
pub mod Prompt
pub mod Receipts
pub mod Handoff
pub mod Replay
pub mod Turns
