-- ===== src/Auth.antt =====
-- server/middleware/auth.py: who a request is from, what it may do, and how often.
pub mod Access
pub mod Rate
pub mod Grants
pub mod Scopes
pub mod Trim
pub mod Window
pub mod Tests
