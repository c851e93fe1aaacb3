-- ===== src/Pool.antt =====
-- Cluster pools: internal/pool/manual.go, pools that the program keeps itself, and internal/pool/pool.go,
-- those that Hive keeps.
pub mod Manual
pub mod Hive
