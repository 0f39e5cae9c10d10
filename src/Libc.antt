-- ===== src/Libc.antt =====
-- What the source uses of the C library and of the C language's byte order, as plain functions.
pub mod Text
pub mod Decimal
pub mod Lines
pub mod Prints
pub mod ByteOrder
