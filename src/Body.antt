-- ===== src/Body.antt =====
-- src/body.c: decoding of the bodies of MIME parts.
pub mod Base64
pub mod QuotedPrintable
pub mod Binary
pub mod Parts
