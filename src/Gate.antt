-- ===== src/Gate.antt =====
-- internal/gate: the gates, of which the versions of their tools are modelled.
pub mod Version
