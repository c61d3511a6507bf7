-- ===== src/Tests.antt =====
-- Runs of the model on concrete inputs.
mod Entries
mod Leb128
mod Table
pub mod Functions
mod Modules
pub mod Library
mod Frames
mod Sections
pub mod Steps
pub mod Returns
mod Arm
pub mod Mapped
mod Threads
mod Driver
mod Stack
mod Report
mod Errors
