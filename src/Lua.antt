-- ===== src/Lua.antt =====
-- The Lua engine, src/lua_engine.rs.
pub mod Convert
pub mod Engine
pub mod Order
