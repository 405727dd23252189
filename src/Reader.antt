-- ===== src/Reader.antt =====
-- bridge_core/reader_transport.py and bridge_core/final_reader_executor.py: the connection to a reader,
-- and the inventory that runs over it for a session.
mod Io
mod Transport
mod Inventory
mod Polls
mod Links
mod Drops
mod Safe
mod Sessions
mod Startup
mod Exchange
mod Serve
mod Serving
unfoldable pub use Io.*
unfoldable pub use Transport.*
unfoldable pub use Inventory.*
unfoldable pub use Polls.*
unfoldable pub use Exchange.*
pub use Drops.*
unfoldable pub use Safe.*
pub use Serving.*
unfoldable pub use Serve.*
