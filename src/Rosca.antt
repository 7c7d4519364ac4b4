-- ===== src/Rosca.antt =====
-- The pallet of generic-template/pallets/rosca.
pub mod Types
pub mod Storage
pub mod Effects
pub mod Pending
pub mod Rounds
pub mod Start
pub mod Active
pub mod Deposits
pub mod Life
pub mod World
pub mod Backing
pub mod Elsewhere
mod Tests
mod Witnesses
