-- ===== src/Types.antt =====
-- The value types of internal/types.
pub mod NodeId
