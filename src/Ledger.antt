-- ===== src/Ledger.antt =====
-- internal/ledger: the events that a ledger records.
pub mod Event
pub mod Store
pub mod Numbered
