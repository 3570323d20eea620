-- ===== src/Managed.antt =====
-- pkg/managed: what the operator creates, cleans up and deletes in the managed clusters.
pub mod Shared
pub mod Namespaces
pub mod ServiceAccounts
pub mod ConfigMaps
pub mod ClusterRoles
pub mod ClusterRoleBindings
pub mod Deployments
pub mod DaemonSets
pub mod Services
pub mod Secrets
pub mod Spared
pub mod Connections
pub mod Reaching
