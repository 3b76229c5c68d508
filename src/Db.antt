-- ===== src/Db.antt =====
-- server/internal/db: what the server computes of the rows that it fetches.
pub mod Recap
pub mod RecapSelect
pub mod Events
pub mod Timeline
