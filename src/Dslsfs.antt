-- ===== src/Dslsfs.antt =====
-- kernel/src/dslsfs.c: the on-disk structures of a volume and the code that allocates in them.
pub mod Bitmap
pub mod Volume
pub mod Format
pub mod Count
pub mod Blocks
pub mod Accounting
pub mod Inodes
pub mod Release
pub mod Files
pub mod Extension
pub mod Transfer
mod Tests
