-- ===== src/Safety.antt =====
-- The operations of scheduler.cpp and uthreads.cpp, their faults and the invariant.
mod Leave
pub mod Queue
mod Terminate
mod Spawn
mod Ways
mod Destroy
mod Calls
mod Start
mod Land
pub use Leave.*
pub use Queue.*
pub use Terminate.*
pub use Spawn.*
pub use Ways.*
pub use Destroy.*
pub use Calls.*
pub use Start.*
pub use Land.*
