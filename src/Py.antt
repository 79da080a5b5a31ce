-- ===== src/Py.antt =====
-- What the program uses of Python itself: exceptions as values, `struct`, UTF-8, CRC-32.
pub mod Uuid
pub mod Show
pub mod Json
pub mod Decimal
pub mod Any
pub mod Result
pub mod Struct
pub mod Utf8
pub mod Ints
pub mod Float
pub mod Crc
mod Runs
