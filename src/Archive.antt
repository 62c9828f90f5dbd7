-- ===== src/Archive.antt =====
-- The archive of app/services/archive_service.py: a tree of directories with grants, files in them,
-- and the stored contents that the files refer to.
pub mod Store
pub mod Tree
pub mod Permissions
pub mod Dirs
pub mod Receive
pub mod Steps
pub mod Requests
pub mod Trash
pub mod Reading
pub mod Files
pub mod Ranking
pub mod Stats
pub mod Search
mod Sample
mod Tests
mod FileTests
pub mod Maintenance
