-- ===== src/Store.antt =====
-- internal/service/servicetest/stores.go: the in-memory implementation of the store interface, the one
-- that the repository keeps in step with the PostgreSQL store. Every method holds the store's lock from
-- its first statement to its last, so a method is one step.
mod State
pub mod Paging
pub mod Entities
pub mod Observations
pub mod Tasks
pub mod Objects
pub mod Files
pub mod Staged
pub mod Uploads
pub mod Query
pub mod Integrity
pub mod Frame
pub mod Atomic
pub mod Filed
pub mod Listing
pub use State.*
