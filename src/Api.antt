-- ===== src/Api.antt =====
-- pkg/apis/dr/v1alpha1: the types that all components share, and the calls of the Kubernetes
-- libraries on unstructured objects.
mod Content
mod Types
mod Filters
mod Custom
mod Unstructured
unfoldable pub use Content.*
unfoldable pub use Types.*
unfoldable pub use Filters.*
unfoldable pub use Custom.*
unfoldable pub use Unstructured.*
