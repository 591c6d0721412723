-- ===== src/Sites.antt =====
-- manager/director/apps/sites: the sites of the manager, their operations and the tasks that carry
-- these out.
pub mod Models
pub mod Access
pub mod Limits
pub mod Images
pub mod Names
pub mod Status
pub mod Serialize
pub mod Wrapper
pub mod Actions
pub mod Tasks
pub mod Operations
pub mod Consumers
mod Samples
mod Tests
mod TaskTests
