-- ===== src/Lifecycle.antt =====
-- What a worker is made of, what it starts, and how it ends: the constructors and the `Run`
-- methods of pkg/drmanager and pkg/resourcemanager, and the life of the worker without dependencies.
mod Parts
mod BaseLife
pub mod Reporting
pub mod Started
pub mod StatusLoop
pub mod StartLaws
pub mod BaseLaws
unfoldable pub use Parts.*
unfoldable pub use BaseLife.*
