-- ===== src/Admin.antt =====
-- services/admin: the routes of the tokenisation programs, and the calls of the vault.
pub mod Programs
pub mod VaultProxy
pub mod Emails
pub mod Tests
