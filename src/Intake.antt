-- ===== src/Intake.antt =====
-- bridge_core/ingestion.py, bridge_core/session_assignment.py and
-- bridge_core/session_assignment_cycle.py, bridge_core/final_tag_ingestion.py: the way of a read into the queue.
mod Ingestion
mod Again
mod Assignment
mod Assigned
mod FinalTags
mod FinalEvents
mod Returned
mod Replay
mod Logged
mod Cycle
mod CycleCounts
unfoldable pub use Ingestion.*
unfoldable pub use Assignment.*
unfoldable pub use FinalTags.*
pub use FinalEvents.*
unfoldable pub use Cycle.*
pub use CycleCounts.*
pub use Logged.*
pub use Replay.*
pub use Again.*
pub use Assigned.*
