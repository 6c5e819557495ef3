-- ===== src/Dotjson.antt =====
-- c/dotjson/dotjson.c and dotjson.h: a JSON decoder and encoder.
pub mod Text
pub mod Utf8
pub mod Escape
pub mod Node
pub mod Number
pub mod Quoted
pub mod Table
pub mod Decode
pub mod Document
pub mod Encode
pub mod Destroy
mod Examples
