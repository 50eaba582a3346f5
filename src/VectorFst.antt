-- ===== src/VectorFst.antt =====
-- sicada/src/fsts/vector_fst.rs: the ordinary mutable FST, and what its operations keep.
pub mod State
pub mod Defs
pub mod Delete
pub mod States
pub mod Edit
pub mod Counted
pub mod Epsilons
pub mod AsFst
mod Tests
