-- ===== src/Tests.antt =====
-- Concrete stores and requests, and every property at an input of its own.
pub mod Stores
pub mod Listings
pub mod Layers
pub mod Keys
pub mod Requests
pub mod Backends
pub mod Endings
pub mod Starting
pub mod Views
pub mod Streaming
pub mod Documents
pub mod Bodies
pub mod Signatures
