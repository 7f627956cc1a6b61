-- ===== src/Groups.antt =====
-- app/domain/groups/service.py, the blockers of app/domain/groups/queries.py, and
-- app/shared/slugs.py. The current semester is an argument; the database numbers new rows by a
-- sequence. The library's normalization of texts, NFKD, is the argument `nfkd`.
pub mod Points
pub mod Slugs
pub mod Tables
pub mod Service
pub mod References
pub mod Deletions
