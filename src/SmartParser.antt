-- ===== src/SmartParser.antt =====
-- src/smart-parser.c.
pub mod Token
pub mod Tables
pub mod State
pub mod Scan
pub mod Tree
pub mod Parse
pub mod Media
pub mod FieldTable
mod Tests
pub mod Evaluate
pub mod Match
mod ErrorBuffer
