-- ===== src/Shell.antt =====
-- shell/shell: the SSH server that connects users to their sites.
pub mod Session
pub mod Bounds
pub mod Typing
pub mod Setup
pub mod Invariant
pub mod Selection
pub mod Auth
pub mod Admission
pub mod Connect
mod Tests
