-- ===== src/Where.antt =====
-- Declared filters: src/core/compileDbWhere.ts, src/core/compileWhereExpression.ts and their types.
pub mod Filter
pub mod Compile
pub mod Sql
pub mod Truths
pub mod Agree
