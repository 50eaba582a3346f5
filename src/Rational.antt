-- ===== src/Rational.antt =====
-- The rational operations of sicada/src/algorithms: union.rs, closure.rs and concat.rs.
pub mod Properties
pub mod Union
pub mod Graph
pub mod Copy
pub mod Runs
pub mod Positions
pub mod Shift
pub mod Language
pub mod Join
pub mod Exits
pub mod Sequel
pub mod Rounds
pub mod Closure
pub mod Concat
pub mod UnionLanguage
pub mod UnionCalls
pub mod UnionCorrect
mod Tests
