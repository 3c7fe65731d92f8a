-- ===== src/Storage.antt =====
-- The storage backends of apps/_tasks/integration/storage/.
pub mod Failures
pub mod Chunks
pub mod GoogleDrive
pub mod OneDrive
pub mod Dropbox
pub mod Objects
pub mod Azure
pub mod Local
pub mod Dispatch
