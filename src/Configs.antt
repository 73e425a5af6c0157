-- ===== src/Configs.antt =====
-- pkg/configs: the container of configurations with its listeners, the config map watcher, and
-- the flags.
mod Container
mod Watcher
mod Flags
pub mod Promises
mod Related
mod FilterSteps
mod SettingSteps
pub mod Delivery
pub mod WatcherLaws
pub mod Watching
unfoldable pub use Container.*
unfoldable pub use Watcher.*
unfoldable pub use Flags.*
