-- ===== src/Transport.antt =====
-- pkg/transportmanager: the versions that were sent, and the transporters.
mod Manager
mod KubeApiserver
mod Http
pub mod Versions
pub mod Remote
pub mod Requeues
pub mod Drain
pub mod Highest
pub mod Patience
pub mod Stores
pub mod Effects
pub mod Replica
pub mod Recovery
pub mod Recreated
pub mod Unused
pub mod Faults
unfoldable pub use Manager.*
unfoldable pub use KubeApiserver.*
unfoldable pub use Http.*
