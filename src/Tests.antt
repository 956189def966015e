-- ===== src/Tests.antt =====
-- Tests of the definitions on concrete inputs, and the theorems applied to such inputs.
mod Model
mod Events
mod Service
mod Lifecycle
mod Queries
mod Creation
mod Announced
