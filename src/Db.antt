-- ===== src/Db.antt =====
-- The package db: collections of models with indexes over a key-value store.
pub mod Escape
pub mod Keys
pub mod Ldb
pub mod Operations
pub mod Transaction
pub mod Query
pub mod Global
