-- ===== src/Examples.antt =====
-- The library at small states (scheduler.cpp, uthreads.cpp, utils.h, main.cpp).
mod States
mod Steps
mod Calls
mod Parts
mod Programs
mod Contracts
mod Samples
mod Complaints
mod Runs
