-- ===== src/Decommission.antt =====
-- The decommissioning workflow, internal/decommission: its state in a ConfigMap (state.go), the
-- audit (audit.go), the steps (drain.go, backup.go, cleanup.go) and the manager (manager.go).
pub mod Phases
pub mod State
pub mod ConfigMap
pub mod Audit
pub mod Steps
pub mod Manager
