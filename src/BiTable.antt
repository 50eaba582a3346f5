-- ===== src/BiTable.antt =====
-- sicada/src/data_structures/bi_table.rs and state_table.rs: a number for each entry, and back.
pub mod Spec
pub mod Contract
pub mod Hash
pub mod Keys
pub mod Compact
pub mod Slots
pub mod Vector
pub mod VectorHash
pub mod Erasable
pub mod Fingerprint
pub mod StateTables
mod Tests
