-- ===== src/Protocol.antt =====
-- bridge_core/reader_protocol.py: the frames of the RFID reader on the wire. A byte is a number below
-- 256, and `bytes` a list of them.
mod Frame
mod RoundTrip
mod Decoder
mod Stream
mod Chunks
mod Frames
mod Tag
mod Encode
unfoldable pub use Frame.*
pub use RoundTrip.*
unfoldable pub use Decoder.*
pub use Frames.*
pub use Chunks.*
pub use Stream.*
unfoldable pub use Tag.*
unfoldable pub use Encode.*
