-- ===== src/Controller.antt =====
-- pkg/controller, pkg/drmanager/manager.go and pkg/namespacecrstatusupdater: the reconcilers of
-- the custom resources, the workers that they start, and the writes of the status.
mod StatusUpdater
mod Workers
mod NamespaceController
mod ClusterController
pub mod StatusLaws
pub mod ClusterLaws
pub mod ClusterDeletion
pub mod NamespaceWays
pub mod NamespaceLaws
pub mod Agreement
pub mod Reconciles
pub mod Running
pub mod StoredNamespaces
pub mod ClusterBlocks
pub mod ClusterRefinement
unfoldable pub use StatusUpdater.*
unfoldable pub use Workers.*
unfoldable pub use NamespaceController.*
unfoldable pub use ClusterController.*
