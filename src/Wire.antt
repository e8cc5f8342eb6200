-- ===== src/Wire.antt =====
-- Client.py, the receiving side of a connection: which lines are tweak sets, the length limits, the
-- flood accounting and the framing of commands. What a connection does to the rest of the server
-- goes through a `Peer`, the operations that its methods call on the client and the root.
pub mod Tweak
pub mod Framing
pub mod Flood
