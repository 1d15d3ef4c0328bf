-- ===== src/Invariant.antt =====
-- The invariant of the scheduler of scheduler.h.
mod Defs
mod Change
mod Outer
mod Remove
mod Add
pub use Defs.*
pub use Change.*
pub use Outer.*
pub use Remove.*
pub use Add.*
