-- ===== src/Controllers.antt =====
-- internal/controllers: what the reconcilers of apps and jobs keep and decide.
pub mod Cancel
pub mod Pods
pub mod Workload
pub mod Unready
pub mod Progress
pub mod Watch
pub mod Rollout
pub mod Reconcile
pub mod Canary
