-- ===== src/Crossfs.antt =====
-- src/crossfs/crossfs.c: the filesystem that is mounted at /bedrock/cross.
pub mod Paths
pub mod Read
pub mod Config
pub mod Commands
pub mod Write
pub mod Ini
pub mod Roots
pub mod Backs
pub mod Listing
pub mod Request
pub mod Handlers
