-- ===== src/Auth.antt =====
-- src/auth: the users, pools and grants of the authentication server, its sessions and requests.
pub mod Types
pub mod Backend
pub mod Dao
pub mod Db
pub mod Users
pub mod Pools
pub mod Quota
pub mod Grants
pub mod Session
pub mod Example
mod Tests
mod GrantTests
mod SessionTests
mod ServiceTests
pub mod Service
pub mod Subscribe
