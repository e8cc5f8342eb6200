-- ===== src/Battle.antt =====
-- protocol/Battle.py: a channel with a host, its joins and leaves, and the status that it computes.
pub mod Status
pub mod Join
pub mod Leave
