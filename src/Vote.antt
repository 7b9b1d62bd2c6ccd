-- ===== src/Vote.antt =====
-- src/vote/server: the vote server, which lends its vote to the leaders of other services.
pub mod Groups
pub mod Service
pub mod Election
pub mod Choice
pub mod Notify
pub mod Inactive
pub mod Check
pub mod Select
mod ElectionTests
mod Tests
