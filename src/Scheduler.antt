-- ===== src/Scheduler.antt =====
-- persys-scheduler/internal/scheduler: the control plane's scheduler.
pub mod Models
pub mod Services
pub mod Keeps
pub mod Yields
pub mod Answers
pub mod Mode
pub mod Etcd
pub mod Projection
pub mod Storage
pub mod Store
pub mod Retry
pub mod Workloads
pub mod Nodes
pub mod Agent
pub mod Reconcile
pub mod Drift
pub mod Monitor
pub mod Launch
