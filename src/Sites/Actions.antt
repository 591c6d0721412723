-- ===== src/Sites/Actions.antt =====
-- manager/director/apps/sites/actions.py: the actions that the tasks are made of.
mod Base
mod Nginx
mod Docker
mod Stores
pub mod Recovery
unfoldable pub use Base.*
unfoldable pub use Nginx.*
unfoldable pub use Docker.*
unfoldable pub use Stores.*
