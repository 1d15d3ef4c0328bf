-- ===== src/Safety/Calls.antt =====
-- Each function of uthreads.cpp, called by the running thread, and the timer's signal.
mod Inside
mod Tick
mod Spawn
mod Terminate
mod Block
mod Resume
mod Sleep
mod Getters
mod All
pub use Inside.*
pub use Tick.*
pub use Spawn.*
pub use Terminate.*
pub use Block.*
pub use Resume.*
pub use Sleep.*
pub use Getters.*
pub use All.*
