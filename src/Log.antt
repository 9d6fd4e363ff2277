-- ===== src/Log.antt =====
-- src/log.c and include/log.h: the ring buffer of log messages, the thread that writes them, and the rollover
-- of the log file. What a call of the system returns is an argument; the times as text are those of a
-- `LocalTime`. What the logger does to the file and to the terminal is a list of actions, the first one first.
pub mod Entry
pub mod File
pub mod Logger
pub mod Lifecycle
pub mod Whole
pub mod Started
pub mod Queue
pub mod Holds
pub mod Refined
pub mod Drained
pub mod FileSize
mod Examples
