-- ===== src/Guard.antt =====
-- server/engine/request_guard.py: the admission of invocations, the locks of sessions, and the cache of
-- idempotent responses.
pub mod Cache
pub mod Answers
pub mod Lookup
pub mod Lasting
pub mod Sessions
pub mod Counting
pub mod Sound
pub mod Leave
pub mod Exclusion
pub mod Tests
