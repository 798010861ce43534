-- ===== src/Database.antt =====
-- The database layer, DB/bout_database.cpp, over the MySQL client library.
pub mod Mysql
pub mod Queries
pub mod Scripted
pub mod Sessions
pub mod Selections
mod Tests
