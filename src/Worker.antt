-- ===== src/Worker.antt =====
-- bridge_core/final_worker_cycle.py: the worker that drives the orchestrator and sets its hooks.
mod Hooks
mod Barrier
mod Delivered
mod Cycle
mod Rounds
mod Capture
mod Capturing
unfoldable pub use Hooks.*
unfoldable pub use Cycle.*
unfoldable pub use Capture.*
pub use Capturing.*
pub use Rounds.*
pub use Barrier.*
pub use Delivered.*
