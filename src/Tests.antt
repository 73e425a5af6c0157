-- ===== src/Tests.antt =====
-- Examples: a small API of documents, clients and configurations, and one run of each theorem.
mod Fixtures
mod Objects
mod FilterTests
mod TransportTests
mod WorkerTests
mod ConfigTests
mod ControllerTests
mod DrainTests
mod PatienceTests
mod Clusters
mod RecoveryTests
mod ReplicationTests
mod StartupTests
mod ReconcileTests
mod LifecycleTests
mod StatusTests
