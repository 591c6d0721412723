-- ===== src/Orchestrator.antt =====
-- orchestrator/orchestrator: the program that runs the sites on an appserver.
pub mod Files
pub mod FileErrors
pub mod FilePages
pub mod Download
pub mod Monitor
mod Tests
pub mod Docker
pub mod Nginx
pub mod Directories
pub mod Database
