-- ===== src/Session.antt =====
-- bridge_core/final_session_service.py: the local sessions of the readers.
mod Service
mod Unique
mod Serve
mod Restart
unfoldable pub use Service.*
pub use Unique.*
pub use Serve.*
pub use Restart.*
