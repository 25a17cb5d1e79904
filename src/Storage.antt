-- ===== src/Storage.antt =====
-- src/storage: object storage by key. `Keys` names the objects, `Disk` is the file system that
-- `Local` keeps them in.
pub mod Keys
mod Disk
mod Local
mod Presign
mod Manifest
mod Tests
