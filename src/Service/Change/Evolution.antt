-- ===== src/Service/Change/Evolution.antt =====
-- What one change of the stores may do to the records in them.
pub mod Entities
pub mod Observations
pub mod Tasks
pub mod Objects
