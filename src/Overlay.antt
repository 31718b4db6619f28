-- ===== src/Overlay.antt =====
-- overlay.go: the overlay store. The children hold the listing entries, the listing sessions, the
-- cursors over one backend, the merged listing, and the store with its other operations.
pub mod Entries
pub mod Sessions
pub mod Cursor
pub mod Listing
pub mod Buckets
pub mod Gateway
