-- ===== src/Tests.antt =====
-- Runs of the operations and of their theorems on concrete data.
mod Looping
mod Archive
mod Selection
mod Patches
mod Extensions
mod Workers
mod Watching
mod Extraction
mod Tools
