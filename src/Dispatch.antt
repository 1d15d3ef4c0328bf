-- ===== src/Dispatch.antt =====
-- What the functions of scheduler.cpp do that start a quantum.
mod Sleepers
mod Rounds
mod Loop
mod Countdown
mod Start
mod Topmost
pub use Sleepers.*
pub use Rounds.*
pub use Loop.*
pub use Countdown.*
pub use Start.*
pub use Topmost.*
