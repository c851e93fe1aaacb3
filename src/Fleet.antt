-- ===== src/Fleet.antt =====
-- internal/fleet: the taints of the clusters of a fleet.
pub mod Taints
