-- ===== src/Workflows.antt =====
-- src/workflows/document-processing: a document is processed by a job, and takes the job's outcomes.
pub mod JobEvents
pub mod Processing
pub mod Contract
pub mod Waiting
mod Requests
