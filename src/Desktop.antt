-- ===== src/Desktop.antt =====
-- internal/domain/desktop: the services behind the desktop tools. Files and commands stand on the operating
-- system, which is a parameter; paths are those of Unix.
pub mod Paths
pub mod Clean
pub mod Files
pub mod Inside
pub mod Below
pub mod Sibling
pub mod Frame
pub mod Commands
pub mod Denied
pub mod Sandbox
pub mod Removed
pub mod Service
pub mod Pages
mod Samples
