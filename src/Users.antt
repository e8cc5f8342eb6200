-- ===== src/Users.antt =====
-- The accounts of users: SQLUsers.py as far as it keeps more than the database does, and the commands
-- of protocol/Protocol.py that wait for the database.
pub mod Cache
pub mod Ignores
pub mod Bans
pub mod Login
