-- ===== src/Models.antt =====
-- simple_a2a_registry/orchestration/models.py: the statuses, the event kinds and the rows of the
-- store's tables. A status is written as its enum member; `value` is the text that the column
-- holds. A JSON column holds the value that its text encodes.
mod Status
mod Rows
unfoldable pub use Status.*
pub use Rows.*
