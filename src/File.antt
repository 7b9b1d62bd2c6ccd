-- ===== src/File.antt =====
-- src/api/fcfs_api_file.c: reads, writes, truncation and seeks of an open file.
pub mod Types
pub mod Services
pub mod Write
pub mod Read
pub mod Truncate
pub mod Seek
pub mod Calls
pub mod Open
pub mod Example
mod Tests
