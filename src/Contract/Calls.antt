-- ===== src/Contract/Calls.antt =====
-- Each function of uthreads.cpp beside what uthreads.h says of it.
pub mod Common
pub mod Spawn
pub mod Terminate
pub mod Block
pub mod Resume
pub mod Sleep
pub mod Getters
pub mod All
