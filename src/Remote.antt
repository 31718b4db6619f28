-- ===== src/Remote.antt =====
-- remote.go: a store over a real S3 backend.
pub mod KeyMap
pub mod Client
pub mod Calls
pub mod Outputs
pub mod Listings
pub mod Ranges
pub mod Pages
pub mod Mapped
pub mod Holdings
pub mod Serves
pub mod Written
pub mod Listed
pub mod Backend
pub mod Loops
pub mod Ending
pub mod Unchanged
pub mod View
