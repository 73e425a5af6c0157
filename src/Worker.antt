-- ===== src/Worker.antt =====
-- pkg/drmanager: the worker of a namespace, which filters an object, sees to what it depends on
-- and hands it to the transport manager.
mod Checkers
mod Rounds
mod BaseWorker
pub mod Agreement
pub mod Errand
pub mod Passing
pub mod Safety
pub mod Dependencies
mod Outputs
pub mod System
pub mod Waiting
pub mod Sending
pub mod Depth
pub mod Replication
pub mod Starvation
pub mod Progress
pub mod Delivery
pub mod Clearing
pub mod Stripping
unfoldable pub use Checkers.*
unfoldable pub use Rounds.*
unfoldable pub use BaseWorker.*
