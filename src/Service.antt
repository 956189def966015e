-- ===== src/Service.antt =====
-- internal/service: the operations behind the HTTP handlers.
pub mod TaskJson
pub mod State
pub mod Validation
pub mod Commands
pub mod Owners
pub mod Publishing
pub mod Pinned
pub mod Entities
pub mod Observations
pub mod Tasks
pub mod Objects
pub mod Query
pub mod Materialize
pub mod Intact
pub mod Change
pub mod Requests
pub mod Lifecycle
pub mod Atomic
