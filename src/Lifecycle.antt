-- ===== src/Lifecycle.antt =====
-- internal/lifecycle: hibernating and resuming clusters, their diagnosis, their recovery and curators.
pub mod Power
pub mod Recovery
pub mod Curators
pub mod Capi
pub mod Diagnosis
pub mod Reports
