-- ===== src/Trillian.antt =====
-- pkg/trillianclient: the connections to the log servers, and the calls to one of them.
pub mod Config
pub mod Client
pub mod Manager
