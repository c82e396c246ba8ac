-- ===== src/Mime.antt =====
-- src/mime.c, the lexical layer of the protocol's parsers.
pub mod Chars
pub mod Scan
pub mod Space
pub mod Words
pub mod Unstructured
pub mod Lists
pub mod Tokens
pub mod Lines
