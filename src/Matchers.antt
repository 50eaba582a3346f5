-- ===== src/Matchers.antt =====
-- sicada/src/matcher.rs: finding the arcs of a state that have a label.
pub mod Sorted
pub mod Order
pub mod Collect
pub mod Exact
mod Tests
