-- ===== src/Examples.antt =====
-- Concrete worlds and inputs at which the theorems of the other modules apply.
pub mod Worlds
mod Gpu
mod Routing
mod Client
mod Decommission
mod Lifecycle
mod Pool
mod Batch
mod Fleet
mod Reclamation
mod Matrix
mod Upgrade
mod Rollout
mod Recovery
mod Curators
mod Migration
mod Cost
mod Scaling
