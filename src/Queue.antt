-- ===== src/Queue.antt =====
-- bridge_core/queue_policy.py and bridge_core/queue_service.py: which queue transitions are legal, the
-- delay before a retry, and the service that moves one event.
mod Policy
mod Transitions
mod Backoff
mod Service
mod Moved
unfoldable pub use Policy.*
pub use Transitions.*
pub use Moved.*
pub use Backoff.*
unfoldable pub use Service.*
