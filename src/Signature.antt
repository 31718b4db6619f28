-- ===== src/Signature.antt =====
-- sigv4.go: bodies in aws-chunked framing, and the encoding of the canonical request.
pub mod Chunked
pub mod Encoding
pub mod Verify
pub mod Check
pub mod Middleware
pub mod Fields
