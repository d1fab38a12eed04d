-- ===== src/Commands.antt =====
-- The commands of cmd/ketch on apps and jobs, but for `ketch app deploy`.
pub mod Cname
pub mod Log
pub mod Env
pub mod App
pub mod Job
pub mod Info
