-- ===== src/Study.antt =====
-- src/study: planning, retrieval context, generation and the checks on a study answer.
pub mod Models
pub mod Excerpts
pub mod Graph
pub mod Packing
pub mod Planner
pub mod Requests
pub mod Service
pub mod Validation
