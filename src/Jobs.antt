-- ===== src/Jobs.antt =====
-- DataHandler.py: the jobs that the server runs by the clock, and the work handed to other threads.
pub mod Quotas
pub mod Logins
pub mod Workers
pub mod Timeouts
