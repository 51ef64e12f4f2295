-- ===== src/Db.antt =====
-- db/: the tables of the database backend and the operations on them.
pub mod Tables
pub mod Data
pub mod State
pub mod Create
pub mod Delete
pub mod Hardware
pub mod Template
pub mod Workflows
