-- ===== src/Etcfs.antt =====
-- src/etcfs/etcfs.c: the filesystem that is mounted over /etc.
pub mod Config
pub mod Commands
pub mod Arrays
pub mod Invariant
pub mod Printed
pub mod Caller
pub mod Serve
pub mod Search
pub mod Files
pub mod Inject
pub mod Uninject
pub mod Overrides
pub mod Rename
pub mod Handlers
pub mod Xattr
pub mod Listing
pub mod Own
