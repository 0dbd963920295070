-- ===== src/Pipeline.antt =====
-- runtime/pipeline_parallel.
pub mod Assignment
pub mod Result
pub mod Worker
pub mod Batching
pub mod Generation
