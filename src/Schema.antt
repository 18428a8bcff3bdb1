-- ===== src/Schema.antt =====
-- The enumerations of internal/schema.
pub mod Epistemic
pub mod Workflow
pub mod Severity
pub mod Target
pub mod NodeType
pub mod Inference
