-- ===== src/Model.antt =====
-- internal/model: values, identifiers, errors, records and pagination.
pub mod Float
pub mod Json
pub mod Errors
pub mod Ids
pub mod Merge
pub mod Records
pub mod Pagination
pub mod Limits
pub mod MediaType
