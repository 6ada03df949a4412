-- ===== src/Utils.antt =====
-- What scripts are given by src/lua_custom/lua_util.rs, and the utilities under src/utils.
pub mod Rid
pub mod Examples
