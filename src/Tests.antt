-- ===== src/Tests.antt =====
-- Runs of the modelled code at concrete inputs, and the theorems at inputs that meet their
-- hypotheses.
mod Data
mod Units
mod Canary
mod Deploy
mod Yaml
mod Envs
mod Controllers
mod Reconcile
mod Chart
mod Commands
mod Watch
mod Jobs
mod Run
mod Log
mod Apps
