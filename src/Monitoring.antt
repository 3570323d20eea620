-- ===== src/Monitoring.antt =====
-- pkg/monitoring: the objects of the monitoring components, and the VMI secret.
pub mod Components
pub mod KubeSecrets
pub mod VmiSecrets
pub mod DaemonSets
