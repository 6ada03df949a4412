-- ===== src/Telnet.antt =====
-- The telnet console, src/utils/telnet_utils.rs.
pub mod Client
pub mod Login
pub mod Keys
pub mod Editor
pub mod Invariant
pub mod KeySafety
pub mod Safety
pub mod LoginSafety
pub mod Auth
pub mod Server
pub mod Registry
pub mod Line
pub mod History
pub mod Examples
