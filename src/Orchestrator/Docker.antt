-- ===== src/Orchestrator/Docker.antt =====
-- orchestrator/orchestrator/docker: the Docker services of the sites, and the reload of Nginx.
pub mod Params
pub mod Services
pub mod Waiting
pub mod Updates
mod Tests
