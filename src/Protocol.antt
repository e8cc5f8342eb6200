-- ===== src/Protocol.antt =====
-- protocol/Protocol.py: the handlers of the lobby commands that act on channels and battles.
pub mod Current
pub mod Options
pub mod Players
pub mod Bots
pub mod Chat
pub mod Bridge
pub mod Presence
pub mod History
pub mod Address
pub mod Battles
pub mod Rooms
pub mod Opening
pub mod Rights
pub mod Staff
pub mod Dispatch
