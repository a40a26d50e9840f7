-- ===== src/Repository.antt =====
-- internal/infrastructure/repository, the memory_*.go files: the repositories that live in memory, and the
-- entities that they hold. Each method holds its repository's lock, so it is one step, and it stores and
-- returns copies. The time is a number, and a counter does not overflow.
pub mod Entities
pub mod Sessions
pub mod Messages
pub mod Milestones
pub mod CoreMemory
pub mod Servers
pub mod Saved
mod Samples
