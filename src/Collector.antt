-- ===== src/Collector.antt =====
-- pkg/resourcemanager: what is watched, and what an event hands to the workers.
mod ListWatch
mod Manager
pub mod Start
pub mod StartLaws
pub mod WatchLaws
unfoldable pub use ListWatch.*
unfoldable pub use Manager.*
