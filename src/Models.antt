-- ===== src/Models.antt =====
-- The rows of the database (models/*.py) and the request models that they store
-- (schemas/vm_schema.py), with Boolean tests on the enumerations.
-- A time is a number of seconds. An IPv4 address is its four numbers.
mod Enums
mod Rows
mod Config
pub use Enums.*
pub use Rows.*
unfoldable pub use Config.*
