-- ===== src/Controller.antt =====
-- maas-controller/pkg/controller/maas: the reconciler of MaaSSubscriptions.
pub mod Types
pub mod RateLimit
pub mod Run
pub mod Texts
pub mod Cluster
pub mod Routes
pub mod Limits
pub mod Cleanup
pub mod Policies
pub mod Reconcile
pub mod OptOut
pub mod Release
pub mod Duplicates
pub mod Models
pub mod Skipped
pub mod Sent
pub mod Quiet
pub mod Status
mod Tests
