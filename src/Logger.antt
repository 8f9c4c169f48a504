-- ===== src/Logger.antt =====
-- The logger (logger/): the bounded queue between the threads that log and the one that writes, and the files.
pub mod LogQueue
pub mod Writer
pub mod FileName
