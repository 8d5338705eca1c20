-- ===== src/SmartParser/Parse.antt =====
-- The recursive descent of src/smart-parser.c.
pub mod Monad
pub mod Dates
pub mod Criteria
pub mod Expr
pub mod Contract
pub mod Total
