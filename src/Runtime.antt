-- ===== src/Runtime.antt =====
-- The runtime of one reader: its state machine, and the orchestrator that drives it by the commands
-- of Odoo.
mod State
mod Plan
mod Diagram
unfoldable pub use State.*
unfoldable pub use Plan.*
pub use Diagram.*
