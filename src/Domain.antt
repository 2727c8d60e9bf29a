-- ===== src/Domain.antt =====
-- The domain layer, internal/domain: errors, shared types, entities and their events.
pub mod Errors
pub mod Types
pub mod Paging
pub mod Events
pub mod Asset
pub mod EvalCase
pub mod EvalRun
pub mod Execution
pub mod Versions
pub mod Records
mod Examples
pub mod FrontMatter
pub mod AssetFile
