-- ===== src/Minio.antt =====
-- internal/tierer/minio.go: objects, their identity, and the marker tag.
pub mod Defs
pub mod Marker
pub mod Listing
