-- ===== src/Startup.antt =====
-- cmd/manager and the registration of the controllers: the calls of the libraries in their order.
mod Calls
mod Controllers
mod Process
pub mod Required
pub mod Starts
unfoldable pub use Calls.*
unfoldable pub use Controllers.*
unfoldable pub use Process.*
