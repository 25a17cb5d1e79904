-- ===== src/Access.antt =====
-- src/access: who asks, which community an e-mail address belongs to, and which collections a user
-- may read.
pub mod Models
pub mod Email
pub mod Tables
pub mod Affiliation
pub mod Users
pub mod Service
pub mod Listing
pub mod Tests
