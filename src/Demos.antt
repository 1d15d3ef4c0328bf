-- ===== src/Demos.antt =====
-- The course's demo programs in demos: an interval timer, jumps between two stacks, and SIGINT.
pub mod Jump
pub mod Timer
pub mod Interrupt
