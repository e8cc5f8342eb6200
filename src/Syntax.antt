-- ===== src/Syntax.antt =====
-- The checks and conversions of protocol/Protocol.py that look at one text: numbers of 32 bits and
-- bit strings, the syntax of names, tag lists and addresses.
pub mod Numbers
pub mod Names
pub mod Tags
pub mod Duration
