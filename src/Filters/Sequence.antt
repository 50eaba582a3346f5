-- ===== src/Filters/Sequence.antt =====
-- `SequenceComposeFilter` of sicada/src/algorithms/compose_filter.rs.
pub mod Cache
pub mod Order
pub mod Exact
