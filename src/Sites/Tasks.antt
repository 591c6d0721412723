-- ===== src/Sites/Tasks.antt =====
-- manager/director/apps/sites/tasks.py: the tasks that carry out the operations. A task gives the
-- actions that its `with` body adds, and `run_task` is what the context manager then does.
mod Edits
mod Domains
mod Steps
pub mod Claims
pub mod Outcomes
unfoldable pub use Edits.*
unfoldable pub use Domains.*
unfoldable pub use Steps.*
