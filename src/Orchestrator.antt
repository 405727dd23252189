-- ===== src/Orchestrator.antt =====
-- bridge_core/final_runtime_orchestrator.py: the commands of Odoo drive the reader, the local session
-- and the acknowledgements.
mod Actions
mod Execute
mod Commands
mod Trace
mod Triples
mod Outcomes
mod Ends
mod Escapes
unfoldable pub use Actions.*
unfoldable pub use Execute.*
unfoldable pub use Commands.*
pub use Trace.*
pub use Outcomes.*
pub use Ends.*
pub use Escapes.*
