-- ===== src/Chart.antt =====
-- internal/chart: what an app becomes in its Helm chart.
pub mod Procfile
pub mod Configurator
pub mod Process
pub mod Application
pub mod Ingress
