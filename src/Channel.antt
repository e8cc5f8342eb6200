-- ===== src/Channel.antt =====
-- protocol/Channel.py: who is in a channel, who may do what, its settings, and its lists of
-- operators, mutes and bans, which it forwards to other channels.
pub mod Access
pub mod Members
pub mod Settings
pub mod Penalties
