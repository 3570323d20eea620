-- ===== src/Local.antt =====
-- pkg/local: what the operator keeps in the management cluster.
pub mod Secrets
pub mod ConfigMaps
pub mod AcmeDns
pub mod Instances
pub mod Vmis
pub mod Deleted
