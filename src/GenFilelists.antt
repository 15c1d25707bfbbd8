-- ===== src/GenFilelists.antt =====
-- tools/gen_filelists.py: paths, the listing of a project's sources, the update of FileLists.cmake,
-- the watchers and the watch server.
pub mod Paths
pub mod Listing
pub mod Update
pub mod Watch
pub mod Server
pub mod Projects
mod Examples
