-- ===== src/Delivery.antt =====
-- Delivery of queued events.
mod Attempts
mod Log
mod Start
mod Complete
mod Cycle
mod Process
mod Settle
mod Stranded
mod Overflow
mod Batch
mod Barrier
mod Drained
mod Final
mod Bury
mod Burial
mod FinalCycle
mod FinalSender
mod Confirmed
unfoldable pub use Attempts.*
unfoldable pub use Cycle.*
unfoldable pub use Barrier.*
unfoldable pub use Final.*
unfoldable pub use FinalSender.*
pub use Confirmed.*
pub use Log.*
pub use Process.*
pub use Settle.*
pub use Stranded.*
pub use Overflow.*
pub use Batch.*
pub use Start.*
pub use Complete.*
pub use Drained.*
pub use Burial.*
pub use FinalCycle.*
