-- ===== src/Sync.antt =====
-- two_rounds/sincronization.c: the locks, as threads that interleave one shared access at a time.
pub mod Threads
pub mod TwoRooms
pub mod ReadersWriters
