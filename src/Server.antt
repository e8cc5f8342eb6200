-- ===== src/Server.antt =====
-- The state that the handlers share: the clients, the channels and battles, the maps of the root in
-- DataHandler.py, and what has been sent and stored.
pub mod Types
pub mod Store
pub mod Cast
pub mod Delivery
pub mod Accounts
pub mod Outcome
