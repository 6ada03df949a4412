-- ===== src/Logs.antt =====
-- The log files of src/utils/log_utils.rs.
pub mod Names
pub mod Writer
pub mod Rolling
pub mod Periods
pub mod Examples
