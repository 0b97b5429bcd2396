-- ===== src/Persistent.antt =====
-- backend/internal/repo/persistent: the main database behind the usecases.
pub mod Tables
pub mod Enqueue
pub mod Repo
pub mod Reads
pub mod Sorting
pub mod Evolution
pub mod Queries
pub mod Inserts
pub mod Operations
pub mod History
pub mod Settled
pub mod Wakeups
pub mod Unfinished
pub mod Values
mod Tests
