-- ===== src/Models.antt =====
-- bridge_core/models.py: the enumerations, the rows of the tables, the database as a value, and the
-- exceptions that the services over it raise.
mod Choices
mod Errors
mod Rows
pub mod Orm
unfoldable pub use Choices.*
pub use Errors.*
pub use Rows.*
