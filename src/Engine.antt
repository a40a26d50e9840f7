-- ===== src/Engine.antt =====
-- internal/domain/agent/service/engine: the ReAct loop of the agent, its configuration, the tool calls
-- that it reads out of a model's answer, and the gate of the permission guard.
pub mod Types
pub mod Config
pub mod Parse
pub mod Calls
pub mod Round
pub mod Run
pub mod Effects
pub mod Frame
pub mod Gate
pub mod Resume
pub mod Bounds
pub mod Endless
pub mod Confirm
pub mod Attempts
mod Samples
