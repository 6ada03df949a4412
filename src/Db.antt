-- ===== src/Db.antt =====
-- The databases of src/db/ and the threads of src/lua_custom/lua_db.rs that use them.
pub mod Trait
pub mod Sqlite
pub mod Mysql
pub mod Pool
pub mod Redis
pub mod Thread
pub mod Handler
pub mod Select
pub mod Runs
pub mod Failures
pub mod PoolLaws
pub mod Examples
