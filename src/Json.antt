-- ===== src/Json.antt =====
-- include/json.h and src/json.cpp.
pub mod Equal
pub mod Result
pub mod Int
pub mod CodePoint
pub mod Text
pub mod Syntax
pub mod Fields
pub mod Float
pub mod Loader
pub mod Printer
pub mod Printable
pub mod RoundTrip
pub mod Whole
pub mod Hang
pub mod Object
pub mod Number
pub mod Cast
pub mod Array
pub mod Shared
