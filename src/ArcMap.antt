-- ===== src/ArcMap.antt =====
-- sicada/src/algorithms/arc_map.rs and invert.rs: rewriting every arc of an FST in place.
pub mod Defs
pub mod Invert
pub mod Loop
pub mod InvertGraph
pub mod InvertLanguage
pub mod Project
pub mod ProjectGraph
pub mod ProjectLanguage
mod Tests
