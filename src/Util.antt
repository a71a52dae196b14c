-- ===== src/Util.antt =====
-- core/core/util: the containers and value types that the other parts use.
pub mod Logger
pub mod ByteOrder
pub mod WrapAround
pub mod Sequence
pub mod Promises
pub mod Enum
pub mod Uuid
pub mod Printable
pub mod Defer
pub mod Assertion
