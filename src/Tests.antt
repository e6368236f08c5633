-- ===== src/Tests.antt =====
-- Concrete inputs: runs of the modelled code, and the theorems applied to them.
mod Codec
mod Index
pub mod Disk
mod Engine
mod Merging
mod Reaching
mod Selecting
mod Serving
mod Files
mod Racing
