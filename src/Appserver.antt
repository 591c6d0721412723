-- ===== src/Appserver.antt =====
-- manager/director/utils/appserver.py: addressing the appservers, HTTP requests to them with the
-- exceptions sorted into classes, and pings.
mod Requests
mod Pings
mod Laws
mod Pinged
mod Tests
unfoldable pub use Requests.*
unfoldable pub use Pings.*
pub use Laws.*
pub use Pinged.*
