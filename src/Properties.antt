-- ===== src/Properties.antt =====
-- sicada/src/properties.rs: the property bits of an FST and how the operations update them.
pub mod Flags
pub mod Masks
pub mod Update
