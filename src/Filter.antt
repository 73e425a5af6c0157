-- ===== src/Filter.antt =====
-- pkg/filter: the filters that an object passes on its way out, and how a configuration becomes a
-- list of them. `In` of every filter is an empty function, and no code calls it.
mod Defs
mod VariableMapping
mod VariableDelete
mod WhiteList
mod Pvc
mod Factory
pub mod DefaultLaws
pub mod MappingLaws
unfoldable pub use Defs.*
unfoldable pub use VariableMapping.*
unfoldable pub use VariableDelete.*
unfoldable pub use WhiteList.*
unfoldable pub use Pvc.*
unfoldable pub use Factory.*
