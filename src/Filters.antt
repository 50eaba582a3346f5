-- ===== src/Filters.antt =====
-- sicada/src/algorithms/compose_filter.rs: which pairs of arcs a composition may take.
pub mod Defs
pub mod Paths
pub mod Runs
pub mod Sequence
pub mod Mirror
pub mod Alternate
mod Tests
